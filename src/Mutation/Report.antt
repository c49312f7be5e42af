-- ===== src/Mutation/Report.antt =====
-- tb/mutation/report.py: one or two runs of the mutants counted and compared. The shares in percent, the order of the
-- tables and what is printed are left out.
pub mod Compared
use binutils_mcs.Base.{
  ℕ, zero, suc, ◌+◌, ◌≡◌, Bool, true, false, not, ◌&&◌, ◌||◌, Option, none, some, List, [], ◌∷◌,
  ◌++◌, if◌then◌else◌,
}
use binutils_mcs.Base.Bytes.{codes, equal}
use binutils_mcs.Base.Text.{Text}
use binutils_mcs.Base.Dict.{Dict, get, put}

-- A row of `results`; `killer` is the stage that was red first.
pub record Entry : Type 0 where
  pub id : Text
  pub status : Text
  pub killer : Text

-- `{r['id']: r for r in d['results']}`, behind the rows so far
unfoldable pub load_from : Dict Entry → List Entry → Dict Entry
load_from d [] = d
load_from d (r ∷ rs) = load_from (put r.id r d) rs

abbrev pub load : List Entry → Dict Entry
load = load_from []

abbrev pub is_killed : Entry → Bool
is_killed r = equal r.status (codes "killed")

abbrev pub is_survived : Entry → Bool
is_survived r = equal r.status (codes "survived")

unfoldable pub count_rows : (Entry → Bool) → Dict Entry → ℕ
count_rows p [] = 0
count_rows p ((i, r) ∷ d) = let n = count_rows p d in if p r then suc n else n

-- `killed` and `scored` of `rate`
abbrev pub rate : Dict Entry → ℕ × ℕ
rate rows = (count_rows is_killed rows, count_rows (λ r. is_killed r || is_survived r) rows)

-- `by.get(st, 0)`
abbrev pub first_kills : Dict Entry → Text → ℕ
first_kills after st = count_rows (λ r. is_killed r && equal r.killer st) after

-- `before.get(i, {}).get('status') == …`
abbrev pub was : (Entry → Bool) → Dict Entry → Text → Bool
was p before i = elim (get i before) [ none ↦ false | some r ↦ p r ]

-- The ids of the rows that are now one thing and were another before.
unfoldable pub moved : (Entry → Bool) → (Entry → Bool) → Dict Entry → Dict Entry → List Text
unfolding get
moved now past before [] = []
moved now past before ((i, r) ∷ after) =
    let rest = moved now past before after in if now r && was past before i then i ∷ rest else rest

-- `newly` and `lost`
abbrev pub newly : Dict Entry → Dict Entry → List Text
newly before after = moved is_killed is_survived before after

abbrev pub lost : Dict Entry → Dict Entry → List Text
lost before after = moved is_survived is_killed before after

-- `live`
unfoldable pub live : Dict Entry → List Entry
live [] = []
live ((i, r) ∷ d) = let rest = live d in if is_survived r then r ∷ rest else rest

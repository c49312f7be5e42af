-- ===== src/Mutation/Coverage.antt =====
-- tb/mutation/coverage.py: a full matrix of mutants and stages reduced to what each stage catches. The
-- file of results is a record. Wall clocks, shares and the printed tables are left out.
pub mod Totals
pub mod Scored
pub mod Alone
pub mod Kills
pub mod Overlap
use binutils_mcs.Base.{
  ℕ, ◌+◌, Bool, true, false, not, ◌&&◌, ◌||◌, Option, none, some, List, [], ◌∷◌, ◌++◌, ◌==◌,
  if◌then◌else◌, length, any,
}
use binutils_mcs.Base.Bytes.{codes, equal}
use binutils_mcs.Base.Text.{Text}
use binutils_mcs.Base.Dict.{Dict, get, put, member}

-- A row of `results`: its stages are empty where none was run.
pub record Row : Type 0 where
  pub id : Text
  pub status : Text
  pub stages : Dict ℕ

pub record Results : Type 0 where
  pub all_stages : Bool
  pub stages : List Text
  pub rows : List Row

-- `load`; `none` is the refusal of a run that stops at the first red
abbrev pub load : Results → Option Results
load d = if not d.all_stages then none else some d

-- The rows that are scored, those with a verdict missing, and the others' statuses.
pub record Sorted : Type 0 where
  pub scored : List Row
  pub incomplete : List Row
  pub other : List Text

-- `status in ('killed', 'survived')`
abbrev pub is_scored : Row → Bool
is_scored r = equal r.status (codes "killed") || equal r.status (codes "survived")

abbrev pub has_verdict : Row → Text → Bool
has_verdict r s = elim (get s r.stages) [ none ↦ false | some rc ↦ true ]

-- `any(s not in rcs for s in stages)`
abbrev pub is_truncated : List Text → Row → Bool
is_truncated stages r = any (λ s. not (has_verdict r s)) stages

unfoldable pub sort_rows : List Text → List Row → Sorted
sort_rows stages [] = record { scored = []; incomplete = []; other = [] }
sort_rows stages (r ∷ rs) =
    let rest = sort_rows stages rs in
    if not (is_scored r)
    then record rest { other = r.status ∷ rest.other }
    else if is_truncated stages r
    then record rest { incomplete = r ∷ rest.incomplete }
    else record rest { scored = r ∷ rest.scored }

-- `r['stages'][s]`, of a row that has it
abbrev pub code_of : Row → Text → ℕ
code_of r s = elim (get s r.stages) [ none ↦ 0 | some rc ↦ rc ]

abbrev pub is_red : Row → Text → Bool
is_red r s = not (code_of r s == 0)

-- `frozenset(s for s in stages if …)`
unfoldable pub red_of : List Text → Row → List Text
red_of [] r = []
red_of (s ∷ ss) r =
    let rest = red_of ss r in if is_red r s && not (member s rest) then s ∷ rest else rest

-- `red`, by the id of the mutant
unfoldable pub reds : List Text → List Row → Dict (List Text) → Dict (List Text)
unfolding red_of
reds stages [] d = d
reds stages (r ∷ rs) d = reds stages rs (put r.id (red_of stages r) d)

abbrev pub red_at : Dict (List Text) → Row → List Text
red_at d r = elim (get r.id d) [ none ↦ [] | some ss ↦ ss ]

abbrev pub is_empty : List Text → Bool
is_empty [] = true
is_empty (s ∷ ss) = false

-- `killed` and `live`
unfoldable pub killed : Dict (List Text) → List Row → List Row
killed d [] = []
killed d (r ∷ rs) = if is_empty (red_at d r) then killed d rs else r ∷ killed d rs

unfoldable pub live : Dict (List Text) → List Row → List Row
live d [] = []
live d (r ∷ rs) = if is_empty (red_at d r) then r ∷ live d rs else live d rs

-- The dictionaries by stage.
pub record Tables : Type 0 where
  pub kills : Dict (List Text)
  pub uniq : Dict (List Text)
  pub first : Dict ℕ
  pub tmo : Dict ℕ

abbrev pub ids_at : Text → Dict (List Text) → List Text
ids_at s d = elim (get s d) [ none ↦ [] | some ids ↦ ids ]

abbrev pub count_at : Text → Dict ℕ → ℕ
count_at s d = elim (get s d) [ none ↦ 0 | some n ↦ n ]

-- A verdict that is red.
unfoldable pub note_red : List Text → Row → Text → Tables → Tables
note_red rset r s t = record {
  kills = put s (ids_at s t.kills ++ r.id ∷ []) t.kills;
  uniq = if length rset == 1 then put s (ids_at s t.uniq ++ r.id ∷ []) t.uniq else t.uniq;
  first = t.first;
  tmo = if code_of r s == 124 then put s (count_at s t.tmo + 1) t.tmo else t.tmo;
}

-- The loop over the stages of a row.
unfoldable pub note_stages : List Text → Row → List Text → Tables → Tables
unfolding note_red
note_stages rset r [] t = t
note_stages rset r (s ∷ ss) t =
    note_stages rset r ss (if is_red r s then note_red rset r s t else t)

-- The first stage of the list that is red counts the row.
unfoldable pub note_first : List Text → List Text → Dict ℕ → Dict ℕ
note_first rset [] d = d
note_first rset (s ∷ ss) d =
    if member s rset then put s (count_at s d + 1) d else note_first rset ss d

unfoldable pub note_row : List Text → Dict (List Text) → Row → Tables → Tables
unfolding note_stages note_first
note_row stages red r t =
    let t' = note_stages (red_at red r) r stages t in
    record t' { first = note_first (red_at red r) stages t'.first }

unfoldable pub note_rows : List Text → Dict (List Text) → List Row → Tables → Tables
unfolding note_row
note_rows stages red [] t = t
note_rows stages red (r ∷ rs) t = note_rows stages red rs (note_row stages red r t)

-- `{s: v for s in stages}`
unfoldable pub from_keys {ℓ} : {V : Type ℓ} → V → List Text → Dict V → Dict V
from_keys v [] d = d
from_keys v (s ∷ ss) d = from_keys v ss (put s v d)

abbrev pub blank : List Text → Tables
blank stages = record {
  kills = from_keys [] stages [];
  uniq = from_keys [] stages [];
  first = from_keys 0 stages [];
  tmo = from_keys 0 stages [];
}

-- The scored rows of a file, and its tables.
abbrev pub scored_rows : Results → List Row
scored_rows d = (sort_rows d.stages d.rows).scored

abbrev pub red_sets : Results → Dict (List Text)
red_sets d = reds d.stages (scored_rows d) []

unfoldable pub tables : Results → Tables
unfolding note_rows sort_rows reds from_keys
tables d = note_rows d.stages (red_sets d) (scored_rows d) (blank d.stages)

-- The relation of two kill sets.
pub data Relation : Type 0 where
  identical within_b within_a apart : Relation

-- `A - B`, empty as the set is
unfoldable pub only : List Text → List Text → List Text
only [] b = []
only (x ∷ xs) b = if member x b then only xs b else x ∷ only xs b

unfoldable pub relation : List Text → List Text → Relation
unfolding only
relation a b =
    if is_empty (only a b) && is_empty (only b a)
    then identical
    else if is_empty (only a b)
    then within_b
    else if is_empty (only b a)
    then within_a
    else apart

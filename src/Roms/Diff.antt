-- ===== src/Roms/Diff.antt =====
-- The comparison of two ROMs in `main` of tb/romdiff.py: the outcome of a project, and the byte map of a
-- pair of ROMs that differ.
pub mod Count
pub mod Map
use binutils_mcs.Base.{
  ℕ, ◌+◌, ◌-◌, Bool, true, false, not, Option, none, some, List, [], ◌∷◌, ◌==◌, if◌then◌else◌,
  length,
}
use binutils_mcs.Base.Int.{ℤ, pos}
use binutils_mcs.Base.Bytes.{Bytes, codes, equal}
use binutils_mcs.Base.Text.{Text}

-- `(outcome, differing bytes, ROM size)`; a recorded number may be negative.
pub record Outcome : Type 0 where
  pub kind : Text
  pub differing : ℤ
  pub size : ℤ

-- `[i for i in range(n) if rb[i] != gb[i]]` over the shared prefix, which begins at `i` here
unfoldable pub offsets : ℕ → Bytes → Bytes → List ℕ
offsets i [] gb = []
offsets i (r ∷ rb) [] = []
offsets i (r ∷ rb) (g ∷ gb) =
    let rest = offsets (i + 1) rb gb in if not (r == g) then i ∷ rest else rest

-- `len(offs) + abs(len(rb) - len(gb))`
unfoldable pub differing : Bytes → Bytes → ℕ
unfolding offsets
differing rb gb = length (offsets 0 rb gb) + ((length rb - length gb) + (length gb - length rb))

abbrev pub outcome : Text → ℕ → ℕ → Outcome
outcome k n s = record { kind = k; differing = pos n; size = pos s }

-- The outcome of a project, from the reference and the produced file.
unfoldable pub compare_roms : Option Bytes → Option Bytes → Outcome
unfolding differing
compare_roms none g = outcome (codes "no-reference") 0 0
compare_roms (some rb) none = outcome (codes "not-produced") 0 0
compare_roms (some rb) (some gb) =
    if equal rb gb
    then outcome (codes "identical") 0 (length gb)
    else outcome (codes "differ") (differing rb gb) (length gb)

-- A `Counter`: values and how often they were seen.
abbrev pub Counter : Type 0
Counter = List (ℕ × ℕ)

-- `c[v]`
abbrev pub seen : ℕ → Counter → ℕ
seen v [] = 0
seen v ((w, n) ∷ c) = if w == v then n else seen v c

unfoldable pub bump : ℕ → Counter → Counter
bump v [] = (v, 1) ∷ []
bump v ((w, n) ∷ c) = if w == v then (w, n + 1) ∷ c else (w, n) ∷ bump v c

-- `pairs`: the counter of each reference byte.
abbrev pub Pairs : Type 0
Pairs = List (ℕ × Counter)

-- `pairs[r]`
abbrev pub counter_of : ℕ → Pairs → Counter
counter_of r [] = []
counter_of r ((k, c) ∷ ps) = if k == r then c else counter_of r ps

-- `pairs[r][g] += 1`
unfoldable pub see : ℕ → ℕ → Pairs → Pairs
unfolding bump
see r g [] = (r, bump g []) ∷ []
see r g ((k, c) ∷ ps) = if k == r then (k, bump g c) ∷ ps else (k, c) ∷ see r g ps

-- The loop over the offsets, along the two ROMs.
unfoldable pub pairs_from : Bytes → Bytes → Pairs → Pairs
unfolding see
pairs_from [] gb ps = ps
pairs_from (r ∷ rb) [] ps = ps
pairs_from (r ∷ rb) (g ∷ gb) ps = pairs_from rb gb (if not (r == g) then see r g ps else ps)

abbrev pub pairs : Bytes → Bytes → Pairs
pairs rb gb = pairs_from rb gb []

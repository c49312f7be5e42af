-- ===== src/Tests/Roms.antt =====
-- Two projects, one of which has no reference.
use binutils_mcs.Base.{
  ◌≡◌, ◌≢◌, ◌↔◌, ◌<◌, refl, Option, none, some, List, [], ◌∷◌, ok, if◌then◌else◌,
}
use binutils_mcs.Base.Bytes.{Bytes, codes, equal}
use binutils_mcs.Base.Text.{Text, words, words_from, split_once, is_space}
use binutils_mcs.Base.Dict.{Dict, get, put, keys}
use binutils_mcs.Base.Decimal.{read_digits}
use binutils_mcs.Roms.Diff.{Outcome, outcome, compare_roms}
use binutils_mcs.Roms.Diff.Count.{differ_below, compare_roms-Counts}
use binutils_mcs.Roms.Gate.{read_expect, compare_all, main}
use binutils_mcs.Roms.Gate.Agrees.{found, main_iff}

abbrev old : Bytes
old = 1 ∷ 2 ∷ 3 ∷ 2 ∷ []

abbrev new : Bytes
new = 1 ∷ 9 ∷ 3 ∷ 9 ∷ 4 ∷ []

abbrev reference : Text → Option Bytes
reference p = if equal p (codes "a") then some old else none

abbrev produced : Text → Option Bytes
produced p = some new

abbrev lines : List Text
lines = codes "# expected\n" ∷ codes "a differ 3 5 # moved\n" ∷ codes "b no-reference 0 0\n" ∷ []

main_run : main reference produced (codes "a b") (some lines) ≡ ok 0
unfolding compare_all words_from split_once keys get put read_digits is_space
main_run = refl

compare_roms-Counts_example :
    (old ≡ new → compare_roms (some old) (some new) ≡ outcome (codes "identical") 0 5)
    × (old ≢ new
        → (compare_roms (some old) (some new) ≡ outcome (codes "differ") (differ_below 5 old new) 5)
          × (0 < differ_below 5 old new))
compare_roms-Counts_example = compare_roms-Counts old new

main_iff_example : (main reference produced (codes "a b") (some lines) ≡ ok 0) ↔ (
    (words (codes "a b") ≢ [])
    × (want : Dict Outcome) × (read_expect lines [] ≡ ok want)
    × ((p : Text) → found reference produced (words (codes "a b")) p ≡ get p want))
main_iff_example = main_iff reference produced (codes "a b") lines

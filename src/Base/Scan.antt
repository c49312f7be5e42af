-- ===== src/Base/Scan.antt =====
-- The pieces that the regular expressions of the scripts are made of. `\d` and `[0-9]` are the digits of ASCII.
use mathlib.Core.Bool.{Bool, true, false}
use mathlib.Core.List.{List, [], ◌∷◌}
use mathlib.Core.Option.{Option, none, some}
use Prim.Native.Nat.{ℕ, zero, suc, ◌+◌, ◌-◌, ◌*◌}
use package.binutils_mcs.Base.Tests.{◌==◌, if◌then◌else◌}
use package.binutils_mcs.Base.Lists.{length}
use package.binutils_mcs.Base.Text.{Text, between}

-- What stands in front of the first character that fails the test, and the rest.
unfoldable pub span : (ℕ → Bool) → Text → Text × Text
span p [] = ([], [])
span p (c ∷ cs) = let (a, b) = span p cs in if p c then (c ∷ a, b) else ([], c ∷ cs)

-- What stands behind a literal.
unfoldable pub after : Text → Text → Option Text
after [] s = some s
after (p ∷ ps) [] = none
after (p ∷ ps) (c ∷ cs) = elim (p == c) [ true ↦ after ps cs | false ↦ none ]

abbrev pub is_digit : ℕ → Bool
is_digit c = between b'0' b'9' c

-- `[…]+`, of the characters that pass the test
unfoldable pub run_of : (ℕ → Bool) → Text → Option (Text × Text)
unfolding span
run_of p s = let (a, b) = span p s in elim a [ [] ↦ none | c ∷ cs ↦ some (c ∷ cs, b) ]

-- `[0-9]+`
abbrev pub digits : Text → Option (Text × Text)
digits = run_of is_digit

-- `int(s)` of a text of digits
unfoldable pub digits_value : ℕ → Text → ℕ
digits_value n [] = n
digits_value n (c ∷ cs) = digits_value (n * 10 + (c - b'0')) cs

-- `findall`: the matches from left to right, none of which begins inside another. `skip` characters belong to
-- the last one.
unfoldable pub find_all {ℓ} : {A : Type ℓ} → (Text → Option (A × Text)) → ℕ → Text → List A
find_all match skip [] = []
find_all match (suc skip) (c ∷ cs) = find_all match skip cs
find_all match zero (c ∷ cs) = elim (match (c ∷ cs)) [
  | none ↦ find_all match zero cs
  | some (a, rest) ↦ a ∷ find_all match (length cs - length rest) cs
]

-- ===== src/Base/Decimal.antt =====
-- `int(s)` of a text without blanks, in decimal digits of ASCII.
use Prim.Native.Nat.{ℕ, zero, suc, ◌+◌, ◌-◌, ◌*◌, ◌/◌, ◌%◌}
use mathlib.Core.Bool.{Bool, true, false, ◌&&◌}
use mathlib.Core.List.{[], ◌∷◌}
use mathlib.Core.Option.{Option, none, some}
use package.binutils_mcs.Base.Tests.{ltb, ◌==◌, if◌then◌else◌}
use package.binutils_mcs.Base.Int.{ℤ, pos, negsuc}
use package.binutils_mcs.Base.Text.{Text, between}

-- A `_` may stand between two digits; the flag is set behind a digit.
unfoldable pub read_digits : Bool → ℕ → Text → Option ℕ
read_digits after n [] = if after then some n else none
read_digits after n (c ∷ cs) = elim (between b'0' b'9' c) [
  | true ↦ read_digits true (n * 10 + (c - b'0')) cs
  | false ↦ elim (after && c == b'_') [ true ↦ read_digits false n cs | false ↦ none ]
]

abbrev pub negated : ℕ → ℤ
negated zero = pos 0
negated (suc n) = negsuc n

unfoldable pub signed_digits : (ℕ → ℤ) → Text → Option ℤ
unfolding read_digits
signed_digits f cs = elim (read_digits false 0 cs) [ none ↦ none | some n ↦ some (f n) ]

-- `none` is the ValueError.
unfoldable pub read_int : Text → Option ℤ
unfolding signed_digits
read_int [] = none
read_int (c ∷ cs) =
    if c == b'-'
    then signed_digits negated cs
    else if c == b'+'
    then signed_digits pos cs
    else signed_digits pos (c ∷ cs)

-- `'%d' % n`; each division leaves less, so `n + 1` rounds are enough.
unfoldable pub decimal_from : ℕ → ℕ → Text → Text
decimal_from zero n acc = acc
decimal_from (suc fuel) n acc = elim (ltb n 10) [
  | true ↦ (n + b'0') ∷ acc
  | false ↦ decimal_from fuel (n / 10) ((n % 10 + b'0') ∷ acc)
]

abbrev pub decimal : ℕ → Text
decimal n = decimal_from (suc n) n []

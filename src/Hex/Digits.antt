-- ===== src/Hex/Digits.antt =====
-- Writing bytes as hexadecimal digits, for the statements about the readers.
use binutils_mcs.Base.{
  ℕ, ◌+◌, ◌/◌, ◌%◌, ◌<◌, ◌≡◌, refl, ap, ◌∙◌, Option, some, [], ◌∷◌, arith, ltb, if◌then◌else◌, All,
  false,
}
use binutils_mcs.Base.Bytes.{Bytes}
use binutils_mcs.Base.Text.{
  Text, is_space, lstrip, rev, rev_onto, strip, hex_digit, is_hex_blank, from_hex, hex_pair,
  from_hex-pair,
}
use binutils_mcs.Elf.Struct.{IsByte}

unfoldable pub digit : ℕ → ℕ
digit n = if ltb n 10 then n + b'0' else n + 55

-- Two upper-case digits for each byte.
unfoldable pub to_hex : Bytes → Text
unfolding digit
to_hex [] = []
to_hex (b ∷ bs) = digit (b / 16) ∷ digit (b % 16) ∷ to_hex bs

hex_digit-digit : (n : ℕ) → n < 16 → hex_digit (digit n) ≡ some n
unfolding hex_digit digit
hex_digit-digit n h = ground arith

digit-not_blank : (n : ℕ) → is_hex_blank (digit n) ≡ false
unfolding is_hex_blank digit
digit-not_blank n = ground arith

hex_pair-digit :
    (b : ℕ) {bs : Bytes} (rest : Option Bytes)
    → b < 256
    → rest ≡ some bs
    → hex_pair (digit (b / 16)) (digit (b % 16)) rest ≡ some (b ∷ bs)
unfolding hex_pair
hex_pair-digit b {bs} rest h e =
    rw (hex_digit-digit (b / 16) (omega arith), hex_pair)
      (rw (hex_digit-digit (b % 16) (omega arith), e) (ap (λ (n : ℕ). some (n ∷ bs)) (omega arith)))

pub from_hex-to_hex : (bs : Bytes) → All IsByte bs → from_hex (to_hex bs) ≡ some bs
unfolding from_hex to_hex
from_hex-to_hex [] h = refl
from_hex-to_hex (b ∷ bs) h =
    from_hex-pair (digit (b / 16)) (digit (b % 16)) (to_hex bs) (digit-not_blank (b / 16))
    ∙ hex_pair-digit b (from_hex (to_hex bs)) h.0 (from_hex-to_hex bs h.1)

digit-not_space : (n : ℕ) → n < 16 → is_space (digit n) ≡ false
unfolding is_space digit
digit-not_space n h = ground arith

-- No blank stands in the text.
abbrev IsSolid : Text → Type 0
IsSolid = All (λ c. is_space c ≡ false)

to_hex-IsSolid : (bs : Bytes) → All IsByte bs → IsSolid (to_hex bs)
unfolding to_hex
to_hex-IsSolid [] h = tt
to_hex-IsSolid (b ∷ bs) h = (
  digit-not_space (b / 16) (omega (arith, h.0)),
  (digit-not_space (b % 16) (omega arith), to_hex-IsSolid bs h.1),
)

lstrip-IsSolid : (s : Text) → IsSolid s → lstrip s ≡ s
unfolding lstrip
lstrip-IsSolid [] h = refl
lstrip-IsSolid (c ∷ cs) h = rw h.0 refl

rev_onto-IsSolid : (acc s : Text) → IsSolid acc → IsSolid s → IsSolid (rev_onto acc s)
unfolding rev_onto
rev_onto-IsSolid acc [] h k = h
rev_onto-IsSolid acc (c ∷ cs) h k = rev_onto-IsSolid (c ∷ acc) cs (k.0, h) k.1

rev_onto-rev_onto : (acc s : Text) → rev (rev_onto acc s) ≡ rev_onto s acc
unfolding rev_onto
rev_onto-rev_onto acc [] = refl
rev_onto-rev_onto acc (c ∷ cs) = rev_onto-rev_onto (c ∷ acc) cs

pub strip-IsSolid : (s : Text) → IsSolid s → strip s ≡ s
unfolding strip
strip-IsSolid s h =
    rw (lstrip-IsSolid s h)
      (rw (lstrip-IsSolid (rev s) (rev_onto-IsSolid [] s tt h)) (rev_onto-rev_onto [] s))

-- A record's text has no blanks to strip.
pub strip-to_hex : (bs : Bytes) → All IsByte bs → strip (b':' ∷ to_hex bs) ≡ b':' ∷ to_hex bs
unfolding is_space
strip-to_hex bs h = strip-IsSolid (b':' ∷ to_hex bs) (refl, to_hex-IsSolid bs h)

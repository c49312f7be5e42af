-- ===== src/Elf/Struct.antt =====
-- `struct.unpack` and `struct.pack` of one integer field, as the object converters call them.
use binutils_mcs.Base.{
  ℕ, zero, suc, ◌+◌, ◌-◌, ◌*◌, ◌/◌, ◌%◌, ◌^◌, ◌<◌, ◌≡◌, refl, none, some, get_elem?, [], ◌∷◌, arith,
  ltb, ◌==◌, if◌then◌else◌, Result, ok, err, length, All,
}
use binutils_mcs.Base.Bytes.{Bytes}
use binutils_mcs.Base.Int.{ℤ, pos, negsuc}
use native.Mathlib.Nat.{pow-suc, mul-le-mul_right}

-- What Python raises when a converter reads past the end of its data: an index, or a slice too
-- short for `struct.unpack`.
pub data Exc : Type 0 where
  index_error struct_error : Exc

abbrev pub magic : Bytes
magic = 0x7f ∷ b'E' ∷ b'L' ∷ b'F' ∷ []

-- `data[i]`
unfoldable pub byte_at : Bytes → ℕ → Result Exc ℕ
byte_at d i = elim (get_elem? d i) [ none ↦ err index_error | some b ↦ ok b ]

pub byte_at-some : (d : Bytes) (i : ℕ) {b : ℕ} → get_elem? d i ≡ some b → byte_at d i ≡ ok b
unfolding byte_at
byte_at-some d i e = rw (e, byte_at)

abbrev pub IsByte : ℕ → Type 0
IsByte b = b < 256

-- The number that big-endian bytes stand for, behind the digits read so far.
unfoldable pub be_value : ℕ → Bytes → ℕ
be_value acc [] = acc
be_value acc (b ∷ bs) = be_value (acc * 256 + b) bs

unfoldable pub le_value : Bytes → ℕ
le_value [] = 0
le_value (b ∷ bs) = b + 256 * le_value bs

-- `struct.unpack('>H', …)` and `'>I'`, by the width of the field
unfoldable pub unpack_be : ℕ → Bytes → Result Exc ℕ
unpack_be w bs = if length bs == w then ok (be_value 0 bs) else err struct_error

unfoldable pub unpack_le : ℕ → Bytes → Result Exc ℕ
unpack_le w bs = if length bs == w then ok (le_value bs) else err struct_error

-- `struct.pack('<H', …)` and `'<I'`, of a number that fits
unfoldable pub pack_le : ℕ → ℕ → Bytes
pack_le zero v = []
pack_le (suc w) v = (v % 256) ∷ pack_le w (v / 256)

-- `'>i'` reads the bit pattern as two's complement, and `'<i'` writes the pattern of a number.
unfoldable pub signed : ℕ → ℤ
signed v = if ltb v (2 ^ 31) then pos v else negsuc (2 ^ 32 - v - 1)

unfoldable pub pattern_of : ℤ → ℕ
pattern_of (pos n) = n
pattern_of (negsuc n) = 2 ^ 32 - n - 1

pub pattern_of-signed : (v : ℕ) → v < 2 ^ 32 → pattern_of (signed v) ≡ v
unfolding pattern_of signed
pattern_of-signed v h = ground arith

pub length-pack_le : (w v : ℕ) → length (pack_le w v) ≡ w
unfolding pack_le
length-pack_le zero v = refl
length-pack_le (suc w) v = omega (arith, length-pack_le w (v / 256))

pub pack_le-IsByte : (w v : ℕ) → All IsByte (pack_le w v)
unfolding pack_le
pack_le-IsByte zero v = tt
pack_le-IsByte (suc w) v = (omega arith, pack_le-IsByte w (v / 256))

-- A number below 256 ^ w is read back.
pub le_value-pack_le : (w v : ℕ) → v < 256 ^ w → le_value (pack_le w v) ≡ v
unfolding le_value pack_le
le_value-pack_le zero v h = omega arith
le_value-pack_le (suc w) v h =
    omega (arith, le_value-pack_le w (v / 256) (omega (arith, pow-suc 256 w)))

be_value-lt_onto :
    (acc : ℕ) (bs : Bytes) → All IsByte bs → be_value acc bs < (acc + 1) * 256 ^ length bs
unfolding be_value
be_value-lt_onto acc [] h = omega arith
be_value-lt_onto acc (b ∷ bs) h =
    let digit : be_value acc (b ∷ bs) ≡ be_value (acc * 256 + b) bs = refl in
    let power : 256 ^ length (b ∷ bs) ≡ 256 ^ length bs * 256 = pow-suc 256 (length bs) in
    let scaled =
      mul-le-mul_right {m = acc * 256 + b + 1} {n = (acc + 1) * 256} (256 ^ length bs)
        (omega (arith, h.0)) in
    rw (power, digit) (omega (arith, be_value-lt_onto (acc * 256 + b) bs h.1, scaled))

pub be_value-lt : (bs : Bytes) → All IsByte bs → be_value 0 bs < 256 ^ length bs
be_value-lt bs h = omega (arith, be_value-lt_onto 0 bs h)

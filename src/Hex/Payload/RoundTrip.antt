-- ===== src/Hex/Payload/RoundTrip.antt =====
-- A record written by hand is read back.
use binutils_mcs.Base.{
  ℕ, ◌+◌, ◌-◌, ◌/◌, ◌%◌, ◌<◌, ◌≡◌, refl, List, [], ◌∷◌, ◌++◌, arith, ok, length, length-append, All,
  All-append, take,
}
use binutils_mcs.Base.Bytes.{Bytes, slice}
use binutils_mcs.Base.Text.{Text}
use binutils_mcs.Elf.Struct.{IsByte}
use binutils_mcs.Hex.Digits.{to_hex, from_hex-to_hex}
use binutils_mcs.Hex.Payload.{total, nth, check_record, hex_payload}

-- The byte that makes a sum a multiple of 256.
unfoldable pub checksum : ℕ → ℕ
checksum n = (256 - n % 256) % 256

-- A record of the Intel HEX format: length, address, type, bytes, checksum.
abbrev pub record_body : ℕ → ℕ → Bytes → Bytes
record_body addr type bytes = length bytes ∷ (addr / 256) ∷ (addr % 256) ∷ type ∷ bytes

unfoldable pub record_bytes : ℕ → ℕ → Bytes → Bytes
record_bytes addr type bytes =
    record_body addr type bytes ++ checksum (total (record_body addr type bytes)) ∷ []

unfoldable pub record_text : ℕ → ℕ → Bytes → Text
record_text addr type bytes = b':' ∷ to_hex (record_bytes addr type bytes)

pub total-append : (xs ys : Bytes) → total (xs ++ ys) ≡ total xs + total ys
unfolding total
total-append [] ys = omega arith
total-append (x ∷ xs) ys = omega (arith, total-append xs ys)

total-checksum : (body : Bytes) → total (body ++ checksum (total body) ∷ []) % 256 ≡ 0
unfolding checksum
total-checksum body =
    let last : total (checksum (total body) ∷ []) ≡ checksum (total body) =
      unfold total in omega arith in
    rw (total-append body (checksum (total body) ∷ []), last) (omega arith)

pub total-record_bytes :
    (addr type : ℕ) (bytes : Bytes) → total (record_bytes addr type bytes) % 256 ≡ 0
unfolding record_bytes
total-record_bytes addr type bytes = total-checksum (record_body addr type bytes)

pub length-record_bytes :
    (addr type : ℕ) (bytes : Bytes) → length (record_bytes addr type bytes) ≡ 5 + length bytes
unfolding record_bytes
length-record_bytes addr type bytes =
    omega (arith, length-append bytes (checksum (total (record_body addr type bytes)) ∷ []))

pub record_bytes-IsByte :
    (addr type : ℕ) (bytes : Bytes)
    → length bytes < 256
    → addr < 0x10000
    → type < 256
    → All IsByte bytes
    → All IsByte (record_bytes addr type bytes)
unfolding record_bytes checksum
record_bytes-IsByte addr type bytes h a t k =
    All-append IsByte (record_body addr type bytes) _ (h, (omega arith, (omega arith, (t, k))))
      (omega arith, tt)

take-append {ℓ} : {A : Type ℓ} (xs ys : List A) → take (length xs) (xs ++ ys) ≡ xs
take-append [] ys = refl
take-append (x ∷ xs) ys = rw (take-append xs ys)

-- The payload of a record in range.
slice-record_bytes :
    (addr type : ℕ) (bytes : Bytes)
    → slice (record_bytes addr type bytes) 4 (4 + length bytes) ≡ bytes
unfolding slice record_bytes
slice-record_bytes addr type bytes =
    let size : 4 + length bytes - 4 ≡ length bytes = omega arith in rw size (take-append bytes _)

check_record-record_bytes :
    (addr : ℕ) (bytes : Bytes) → check_record (record_bytes addr 0 bytes) ≡ ok bytes
unfolding check_record
check_record-record_bytes addr bytes =
    let first : nth (record_bytes addr 0 bytes) 0 ≡ length bytes = unfold record_bytes in refl in
    let fourth : nth (record_bytes addr 0 bytes) 3 ≡ 0 = unfold record_bytes in refl in
    ground (
      arith,
      length-record_bytes addr 0 bytes,
      total-record_bytes addr 0 bytes,
      slice-record_bytes addr 0 bytes,
    )

-- The record that the format prescribes for up to 255 bytes at a 16-bit address is read back as
-- those bytes.
pub hex_payload-record_text :
    (addr : ℕ) (bytes : Bytes)
    → addr < 0x10000
    → length bytes < 256
    → All IsByte bytes
    → hex_payload (record_text addr 0 bytes) ≡ ok bytes
unfolding hex_payload record_text
hex_payload-record_text addr bytes a h k =
    rw
      (
        from_hex-to_hex (record_bytes addr 0 bytes)
            (record_bytes-IsByte addr 0 bytes h a (omega arith) k),
        hex_payload,
      )
      (check_record-record_bytes addr bytes)

-- ===== src/Elf/Symbols/Total.antt =====
-- No byte string makes the script fail with an exception of its own.
use binutils_mcs.Base.{
  ℕ, zero, suc, ◌+◌, ◌*◌, ◌≤◌, ◌<◌, ◌≡◌, refl, Bool, true, false, not, ◌&&◌, Option, none, arith,
  ltb, ◌==◌, Bool-cases, Result-cases, ◌⊎◌, ==_iff, inl, inr, Result, ok, err, ◌>>=◌, length,
  get_elem?-some,
}
use native.Mathlib.Nat.{mul-le-mul_right}
use binutils_mcs.Base.Bytes.{Bytes, slice, equal, length-slice}
use binutils_mcs.Elf.Struct.{magic, byte_at, byte_at-some, unpack_be, unpack_le}
use binutils_mcs.Elf.Symbols.{
  Elf, Order, lsb, msb, Failure, not_elf, too_short, bad_class, bad_data, bad_shentsize, past_end,
  raised, lift, field, unpack, require, order_of, check_headers, read_header, open_elf, sections,
  sections_from, read_section, uppercase_object, uppercase_symbols, caught,
}

length-slice_inside :
    (d : Bytes) (w off : ℕ) → off + w ≤ length d → length (slice d off (off + w)) ≡ w
length-slice_inside d w off h = omega (arith, length-slice d off (off + w))

-- Not another exception than `NotAnObject`.
abbrev IsCaught : Failure → Type 0
IsCaught (raised x) = ⊥
IsCaught _ = Unit

-- The call returns a value with `P`, or a complaint that the script catches.
abbrev Fine {ℓ} : {A : Type ℓ} → (A → Type 0) → Result Failure A → Type 0
Fine P (ok a) = P a
Fine P (err why) = IsCaught why

Fine-bind {ℓ κ} :
    {A : Type ℓ} {B : Type κ} (P : A → Type 0) (Q : B → Type 0) (m : Result Failure A)
    (f : A → Result Failure B)
    → Fine P m
    → ((a : A) → P a → Fine Q (f a))
    → Fine Q (m >>= f)
Fine-bind P Q (ok a) f p q = q a p
Fine-bind P Q (err why) f p q = p

abbrev Any {ℓ} : {A : Type ℓ} → A → Type 0
Any a = Unit

-- A field in range can be read.
field-Fine : (o : Order) (d : Bytes) (w off : ℕ) → off + w ≤ length d → Fine Any (field o d w off)
unfolding field unpack unpack_be unpack_le
field-Fine lsb d w off h = rw ((==_iff _ w).1 (length-slice_inside d w off h)) tt
field-Fine msb d w off h = rw ((==_iff _ w).1 (length-slice_inside d w off h)) tt

-- The section headers of an object that was opened lie inside the file.
abbrev Inside : Bytes → Elf → Type 0
Inside d e =
    ((e.e_shnum ≡ 0) ⊎ (40 ≤ e.e_shentsize)) × (e.e_shoff + e.e_shnum * e.e_shentsize ≤ length d)

check_headers-Fine : (e : Elf) (d : Bytes) → Fine (Inside d) (check_headers e d)
unfolding check_headers
check_headers-Fine e d = elim (Bool-cases (not (e.e_shnum == 0) && ltb e.e_shentsize 40)) [
  | inl narrow ↦ rw narrow tt
  | inr wide ↦ rw wide (elim (Bool-cases (ltb (length d) (e.e_shoff + e.e_shnum * e.e_shentsize))) [
    | inl past ↦ rw past tt
    | inr inside ↦ rw inside (ground arith, ground arith)
  ])
]

read_header-Fine : (o : Order) (d : Bytes) → 52 ≤ length d → Fine (Inside d) (read_header o d)
unfolding read_header
read_header-Fine o d h =
    Fine-bind Any (Inside d) (field o d 4 32) _ (field-Fine o d 4 32 (omega arith)) λ shoff _.
      Fine-bind Any (Inside d) (field o d 2 46) _ (field-Fine o d 2 46 (omega arith)) λ shentsize _.
        Fine-bind Any (Inside d) (field o d 2 48) _ (field-Fine o d 2 48 (omega arith)) λ shnum _.
          check_headers-Fine
            (record { order = o; e_shoff = shoff; e_shentsize = shentsize; e_shnum = shnum }) d

order_of-Fine : (b : ℕ) → Fine Any (order_of b)
unfolding order_of
order_of-Fine b = elim (Bool-cases (b == 1)) [
  | inl one ↦ rw one tt
  | inr other ↦ rw other (elim (Bool-cases (b == 2)) [ inl two ↦ rw two tt | inr bad ↦ rw bad tt ])
]

require-Fine : (b : Bool) (n : ℕ) → Fine Any (require b (bad_class n))
require-Fine true n = tt
require-Fine false n = tt

byte_at-Fine : (d : Bytes) (i : ℕ) → i < length d → Fine Any (lift (byte_at d i))
byte_at-Fine d i h = let (b, e) = get_elem?-some d i h in rw (byte_at-some d i e) tt

open_elf-Fine : (d : Bytes) → Fine (Inside d) (open_elf d)
unfolding open_elf
open_elf-Fine d = elim (Bool-cases (equal (slice d 0 4) magic)) [
  | inr bad ↦ rw bad tt
  | inl good ↦ rw good (elim (Bool-cases (ltb (length d) 52)) [
    | inl short ↦ rw short tt
    | inr long ↦ rw long (
        Fine-bind Any (Inside d) (lift (byte_at d 4)) _ (byte_at-Fine d 4 (ground arith)) λ class _.
          Fine-bind Any (Inside d) (require (class == 1) (bad_class class)) _
            (require-Fine (class == 1) class)
            λ _ _.
              Fine-bind Any (Inside d) (lift (byte_at d 5)) _ (byte_at-Fine d 5 (ground arith))
                λ b _.
                  Fine-bind Any (Inside d) (order_of b) _ (order_of-Fine b)
                    λ o _. read_header-Fine o d (ground arith))
  ])
]

read_section-Fine :
    (e : Elf) (d : Bytes) (i : ℕ)
    → e.e_shoff + i * e.e_shentsize + 28 ≤ length d
    → Fine Any (read_section e d i)
unfolding read_section
read_section-Fine e d i h =
    let sh = e.e_shoff + i * e.e_shentsize in
    Fine-bind Any Any (field e.order d 4 (sh + 4)) _ (field-Fine _ d 4 _ (omega arith)) λ _ _.
      Fine-bind Any Any (field e.order d 4 (sh + 16)) _ (field-Fine _ d 4 _ (omega arith)) λ _ _.
        Fine-bind Any Any (field e.order d 4 (sh + 20)) _ (field-Fine _ d 4 _ (omega arith)) λ _ _.
          Fine-bind Any Any (field e.order d 4 (sh + 24)) _ (field-Fine _ d 4 _ (omega arith))
            λ _ _. tt

entry_inside :
    (i n size off len : ℕ) → i < n → 40 ≤ size → off + n * size ≤ len → off + i * size + 28 ≤ len
entry_inside i n size off len h k l =
    omega (arith, mul-le-mul_right {m = i + 1} {n = n} size (omega arith))

sections_from-Fine :
    (e : Elf) (d : Bytes) (left i : ℕ)
    → Inside d e
    → i + left ≡ e.e_shnum
    → Fine Any (sections_from e d left i)
unfolding sections_from
sections_from-Fine e d zero i h k = tt
sections_from-Fine e d (suc left) i h k =
    Fine-bind Any Any (read_section e d i) _
      (read_section-Fine e d i (
        entry_inside i e.e_shnum e.e_shentsize e.e_shoff (length d) (omega arith) (omega arith)
          h.1))
      λ _ _.
        Fine-bind Any Any (sections_from e d left (i + 1)) _
          (sections_from-Fine e d left (i + 1) h (omega arith)) λ _ _. tt

uppercase_object-Fine : (e : Elf) (d : Bytes) → Inside d e → Fine Any (uppercase_object e d)
unfolding uppercase_object
uppercase_object-Fine e d h =
    Fine-bind Any Any (sections e d) _ (sections_from-Fine e d e.e_shnum 0 h (omega arith))
      λ _ _. tt

caught-ok : (why : Failure) → IsCaught why → (o : Option Bytes) × (caught why ≡ ok o)
caught-ok (raised x) h = absurd h
caught-ok not_elf h = (none, refl)
caught-ok (too_short n) h = (none, refl)
caught-ok (bad_class n) h = (none, refl)
caught-ok (bad_data n) h = (none, refl)
caught-ok (bad_shentsize n) h = (none, refl)
caught-ok past_end h = (none, refl)

-- On every byte string the script returns: it writes a file or gives the `False` of a file that it
-- cannot read, and no index or `struct.unpack` fails.
pub uppercase_symbols-total : (d : Bytes) → (o : Option Bytes) × (uppercase_symbols d ≡ ok o)
unfolding uppercase_symbols
uppercase_symbols-total d = elim (Result-cases (open_elf d)) [
  | inr (why, e) ↦ rw (e, uppercase_symbols) (caught-ok why (rw e at (open_elf-Fine d)))
  | inl (f, e) ↦
      rw (e, uppercase_symbols)
        (elim (Result-cases (uppercase_object f d)) [
          | inl (o, done) ↦ (o, rw (done, uppercase_symbols) refl)
          | inr (why, bad) ↦
              rw (bad, uppercase_symbols)
                (caught-ok why (rw bad at (uppercase_object-Fine f d (rw e at (open_elf-Fine d)))))
        ])
]

-- ===== src/Probes/Guard/Object/Moved.antt =====
-- What `with_r_offset` changes.
use binutils_mcs.Base.{
  ℕ, ◌+◌, ◌%◌, ◌^◌, ◌<◌, ◌≡◌, refl, ap, ◌∙◌, arith, leb, leb→le, length, Bool-cases, inl, inr, ok,
}
use mathlib.Core.Path.{subst}
use binutils_mcs.Base.Bytes.{Bytes, splice, length-slice}
use binutils_mcs.Base.Text.{rev_onto}
use binutils_mcs.Elf.Struct.{pack_le, le_value, be_value, unpack_le, unpack_be}
use binutils_mcs.Elf.Symbols.{Order, lsb, msb, unpack}
use binutils_mcs.Elf.Archive.Splices.{Spliced, splice-Spliced}
use binutils_mcs.Probes.Guard.Object.{Object, rd, lift, pack, with_r_offset}

length-pack : (end : Order) (v : ℕ) → length (pack end 4 v) ≡ 4
unfolding pack_le rev_onto
length-pack lsb v = refl
length-pack msb v = refl

-- Four bytes that are packed are read back.
unpack-pack : (end : Order) (v : ℕ) → v < 2 ^ 32 → unpack end 4 (pack end 4 v) ≡ ok v
unfolding unpack unpack_le unpack_be pack_le rev_onto le_value be_value
unpack-pack lsb v h = ap ok (omega (arith, h))
unpack-pack msb v h = ap ok (omega (arith, h))

-- An object whose offset is moved: the entry reads as the masked offset, and all other bytes stay where they are.
pub record IsMoved (e : Object) (buf : Bytes) (base value : ℕ) (out : Bytes) : Type 0 where
  pub moved : rd e.end out base 4 ≡ ok (value % 2 ^ 32)
  pub alone : Spliced base (base + 4) (pack e.end 4 (value % 2 ^ 32)) buf out

-- Where the entry lies within the object, the object with the offset moved reads back the masked offset there, in either
-- order of bytes, has the same length, and has all other bytes where they were.
pub with_r_offset-IsMoved :
    (e : Object) (buf : Bytes) (base value : ℕ) {out : Bytes}
    → with_r_offset e buf base value ≡ ok out
    → IsMoved e buf base value out
unfolding with_r_offset rd
with_r_offset-IsMoved e buf base value {out} h = elim (Bool-cases (leb (base + 4) (length buf))) [
  | inr short ↦ cc (rw (short, with_r_offset) at h)
  | inl fits ↦
      let v = pack e.end 4 (value % 2 ^ 32) in
      let same : splice buf base (base + 4) v ≡ out = cc (rw (fits, with_r_offset) at h) in
      let alone = splice-Spliced base (base + 4) v buf (omega arith) (
        length-pack e.end (value % 2 ^ 32)
        ∙ omega (arith, length-slice buf base (base + 4), leb→le _ _ fits)) in
      subst (IsMoved e buf base value) same (record {
        moved =
            ap (λ bs. lift (unpack e.end 4 bs)) alone.inside
            ∙ ap lift (unpack-pack e.end (value % 2 ^ 32) (omega arith));
        alone = alone;
      })
]

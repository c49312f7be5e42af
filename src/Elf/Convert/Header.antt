-- ===== src/Elf/Convert/Header.antt =====
-- The converted ELF header against the original one, field by field.
use binutils_mcs.Base.{
  ℕ, Option, List, refl, ◌+◌, ◌≤◌, ◌<◌, ◌≡◌, ◌∙◌, sym, ap, inl, inr, some, arith, Returns,
  Returns-bind, length, get_elem?, set, All, length-set, All-set, get_elem?-set_ne,
  get_elem?-set_self, list_ext,
}
use native.Mathlib.Nat.{add-zero}
use binutils_mcs.Base.Bytes.{Bytes, slice, splice, get_elem?-slice}
use binutils_mcs.Elf.Struct.{IsByte, be_value, le_value, pack_le}
use binutils_mcs.Elf.Convert.{
  FileHeader, header_widths, header_of, convert_header, swap, swap_fields,
}
use binutils_mcs.Elf.Convert.Fields.{
  big, little, bigs, littles, Rewrites, Rewrites-trans, Swapped, swap-Swapped, SwappedAll,
  swap_fields-SwappedAll, splice-Rewrites, little-splice, unpack_be-ok, bigs-Rewrites,
}

set-Rewrites : (d : Bytes) (i v : ℕ) → v < 256 → Rewrites i (i + 1) d (set d i v)
set-Rewrites d i v h = record {
  same_length = length-set d i v;
  still_bytes = λ k. All-set IsByte d i v k h;
  elsewhere = λ a b apart. list_ext (slice (set d i v) a b) (slice d a b) λ j. ground (
    arith,
    get_elem?-slice (set d i v) a b j,
    get_elem?-slice d a b j,
    get_elem?-set_ne d i (a + j) v,
  );
}

get_elem?-slice_one : (d : Bytes) (i : ℕ) → get_elem? d i ≡ get_elem? (slice d i (i + 1)) 0
get_elem?-slice_one d i = ground (arith, get_elem?-slice d i (i + 1) 0, add-zero i)

-- Field by field: each stands little-endian where it stood big-endian.
pub record AreSwapped (d out : Bytes) : Type 0 where
  pub e_version : little 4 20 out ≡ big 4 20 d
  pub e_entry : little 4 24 out ≡ big 4 24 d
  pub e_phoff : little 4 28 out ≡ big 4 28 d
  pub e_shoff : little 4 32 out ≡ big 4 32 d
  pub e_flags : little 4 36 out ≡ big 4 36 d
  pub e_ehsize : little 2 40 out ≡ big 2 40 d
  pub e_phentsize : little 2 42 out ≡ big 2 42 d
  pub e_phnum : little 2 44 out ≡ big 2 44 d
  pub e_shentsize : little 2 46 out ≡ big 2 46 d
  pub e_shnum : little 2 48 out ≡ big 2 48 d
  pub e_shstrndx : little 2 50 out ≡ big 2 50 d

some_both : {v w : ℕ} → ◌≡◌ {A = Option ℕ} (some v) (some w) → v ≡ w
some_both h = cc h

-- Equal rows of values are equal at each place.
same_at :
    {vs ws : List ℕ} (i : ℕ) {v w : ℕ}
    → vs ≡ ws
    → get_elem? vs i ≡ some v
    → get_elem? ws i ≡ some w
    → v ≡ w
same_at i h a b = some_both (sym a ∙ ap (λ (l : List ℕ). get_elem? l i) h ∙ b)

littles-AreSwapped :
    (d out : Bytes) → littles header_widths 20 out ≡ bigs header_widths 20 d → AreSwapped d out
littles-AreSwapped d out h = record {
  e_version = same_at 0 h refl refl;
  e_entry = same_at 1 h refl refl;
  e_phoff = same_at 2 h refl refl;
  e_shoff = same_at 3 h refl refl;
  e_flags = same_at 4 h refl refl;
  e_ehsize = same_at 5 h refl refl;
  e_phentsize = same_at 6 h refl refl;
  e_phnum = same_at 7 h refl refl;
  e_shentsize = same_at 8 h refl refl;
  e_shnum = same_at 9 h refl refl;
  e_shstrndx = same_at 10 h refl refl;
}

-- What the conversion of the header returns: the values that it read, and the header that it
-- wrote, little-endian and for EM_8051.
pub record IsConverted (d : Bytes) (h : FileHeader) (out : Bytes) : Type 0 where
  pub shoff : h.e_shoff ≡ big 4 32 d
  pub shentsize : h.e_shentsize ≡ big 2 46 d
  pub shnum : h.e_shnum ≡ big 2 48 d
  pub ei_data : get_elem? out 5 ≡ some 1
  pub e_type : little 2 16 out ≡ big 2 16 d
  pub e_machine : little 2 18 out ≡ 165
  pub fields : AreSwapped d out
  pub ident : slice out 0 5 ≡ slice d 0 5
  pub ident_rest : slice out 6 16 ≡ slice d 6 16
  pub rest : Rewrites 5 52 d out

-- For at least 52 bytes the conversion of the header returns, with the three values that the rest of
-- the conversion uses. In the header that it writes EI_DATA is 1, e_machine is
-- 165, and e_type and the eleven fields behind e_machine have little-endian the values that they had big-endian;
-- the other bytes of e_ident, those behind the header and the length are unchanged.
pub convert_header-Returns :
    (d : Bytes)
    → 52 ≤ length d
    → All IsByte d
    → Returns (λ (r : FileHeader × Bytes). IsConverted d r.0 r.1) (convert_header d)
unfolding convert_header
convert_header-Returns d h k =
    let r₀ = set-Rewrites d 5 1 (omega arith) in
    Returns-bind (Swapped 2 16 (set d 5 1)) _ (swap 2 16 (set d 5 1)) _
      (swap-Swapped 2 16 (set d 5 1) (omega (arith, r₀.same_length)))
      λ (t, d₁) (et, lt, r₁).
        let m₁ : Rewrites 5 18 d d₁ = Rewrites-trans 5 18 r₀ r₁ (omega arith) in
        rw (unpack_be-ok 2 18 d₁ (omega (arith, m₁.same_length))) (
          let r₂ = splice-Rewrites 2 18 165 d₁ (omega (arith, m₁.same_length)) in
          let d₂ = splice d₁ 18 20 (pack_le 2 165) in
          let m₂ : Rewrites 5 20 d d₂ = Rewrites-trans 5 20 m₁ r₂ (omega arith) in
          Returns-bind (SwappedAll header_widths 20 d₂) _ (swap_fields header_widths 20 d₂) _
            (swap_fields-SwappedAll header_widths 20 d₂ (omega (arith, m₂.same_length)))
            λ (vs, out) (evs, lvs, r₃).
              let values = bigs-Rewrites header_widths 5 20 20 m₂ (omega arith) in
              let read : vs ≡ bigs header_widths 20 d = evs ∙ values in
              record {
                shoff = ap (λ l. (header_of l).e_shoff) read;
                shentsize = ap (λ l. (header_of l).e_shentsize) read;
                shnum = ap (λ l. (header_of l).e_shnum) read;
                ei_data =
                    get_elem?-slice_one out 5
                    ∙ ap (λ (l : Bytes). get_elem? l 0)
                        (r₃.elsewhere 5 6 (inr (omega arith))
                          ∙ r₂.elsewhere 5 6 (inr (omega arith))
                          ∙ r₁.elsewhere 5 6 (inr (omega arith)))
                    ∙ sym (get_elem?-slice_one (set d 5 1) 5)
                    ∙ get_elem?-set_self d 5 1 (omega arith);
                e_type =
                    ap le_value (
                      r₃.elsewhere 16 18 (inr (omega arith))
                      ∙ r₂.elsewhere 16 18 (inr (omega arith)))
                    ∙ lt (r₀.still_bytes k)
                    ∙ ap (be_value 0) (r₀.elsewhere 16 18 (inl (omega arith)));
                e_machine =
                    ap le_value (r₃.elsewhere 18 20 (inr (omega arith)))
                    ∙ little-splice 2 18 165 d₁ (omega (arith, m₁.same_length)) (omega arith);
                fields = littles-AreSwapped d out (lvs (m₂.still_bytes k) ∙ values);
                ident = (Rewrites-trans 5 52 m₂ r₃ (omega arith)).elsewhere 0 5 (inr (omega arith));
                ident_rest =
                    r₃.elsewhere 6 16 (inr (omega arith))
                    ∙ r₂.elsewhere 6 16 (inr (omega arith))
                    ∙ r₁.elsewhere 6 16 (inr (omega arith))
                    ∙ r₀.elsewhere 6 16 (inl (omega arith));
                rest = Rewrites-trans 5 52 m₂ r₃ (omega arith);
              })

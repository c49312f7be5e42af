-- ===== src/Elf/Convert/Total.antt =====
-- The converter never reads or writes past the end of a file that holds an ELF header.
use binutils_mcs.Base.{
  ℕ, zero, suc, ◌+◌, ◌*◌, ◌≤◌, ◌≡◌, refl, ◌∙◌, some, [], ◌∷◌, inl, inr, All, arith, ltb, ◌==◌,
  Bool-cases, Result, ok, Returns, Returns-bind, Returns-map, Returns-ok, length, get_elem?,
  get_elem?-some,
}
use binutils_mcs.Base.Bytes.{Bytes, slice, equal_iff}
use binutils_mcs.Elf.Struct.{Exc, IsByte, magic, byte_at-some}
use binutils_mcs.Elf.Convert.{
  swap_fields, FileHeader, SectionHeader, section_widths, section_of, convert_header,
  convert_symbol, convert_reloc, convert_entries, entry_count, convert_table, convert_sections,
  convert_object, convert_elf,
}
use binutils_mcs.Elf.Convert.Header.{IsConverted, convert_header-Returns}
use binutils_mcs.Elf.Convert.Fields.{
  Swapped, swap-Swapped, SwappedAll, swap_fields-SwappedAll, swap_signed-Rewrites, Rewrites,
}

-- The call returns data of the same length.
abbrev Keeps : Bytes → Result Exc Bytes → Type 0
Keeps d = Returns (λ out. length out ≡ length d)

convert_symbol-Keeps : (off : ℕ) (d : Bytes) → off + 16 ≤ length d → Keeps d (convert_symbol off d)
unfolding convert_symbol
convert_symbol-Keeps off d h =
    Returns-bind (SwappedAll (4 ∷ 4 ∷ 4 ∷ []) off d) _ _ _
      (swap_fields-SwappedAll (4 ∷ 4 ∷ 4 ∷ []) off d (omega arith))
      λ (vs, d₁) (_, _, r).
        Returns-bind (Swapped 2 (off + 14) d₁) _ _ _
          (swap-Swapped 2 (off + 14) d₁ (omega (arith, r.same_length)))
          λ (v, d₂) (_, _, s). s.same_length ∙ r.same_length

convert_reloc-Keeps : (off : ℕ) (d : Bytes) → off + 12 ≤ length d → Keeps d (convert_reloc off d)
unfolding convert_reloc
convert_reloc-Keeps off d h =
    Returns-bind (SwappedAll (4 ∷ 4 ∷ []) off d) _ _ _
      (swap_fields-SwappedAll (4 ∷ 4 ∷ []) off d (omega arith))
      λ (vs, d₁) (_, _, r).
        Returns-map (Rewrites (off + 8) (off + 8 + 4) d₁) _ _
          (swap_signed-Rewrites (off + 8) d₁ (omega (arith, r.same_length)))
          λ d₂ s. s.same_length ∙ r.same_length

module _ (entry : ℕ → Bytes → Result Exc Bytes) (size : ℕ)
    (keeps : (off : ℕ) (d : Bytes) → off + size ≤ length d → Keeps d (entry off d)) where
  convert_entries-Keeps :
      (sh_offset sh_entsize left j : ℕ) (d : Bytes)
      → Keeps d (convert_entries entry size sh_offset sh_entsize left j d)
  unfolding convert_entries
  convert_entries-Keeps sh_offset sh_entsize zero j d = refl
  convert_entries-Keeps sh_offset sh_entsize (suc left) j d =
      elim (Bool-cases (ltb (length d) (sh_offset + j * sh_entsize + size))) [
        | inl past ↦ rw (past, convert_entries) refl
        | inr inside ↦
            rw (inside, convert_entries)
              (Returns-bind (λ out. length out ≡ length d) (λ out. length out ≡ length d)
                (entry (sh_offset + j * sh_entsize) d) _
                (keeps (sh_offset + j * sh_entsize) d (ground arith))
                λ d' e.
                  Returns-map (λ out. length out ≡ length d') _ _
                    (convert_entries-Keeps sh_offset sh_entsize left (j + 1) d') λ out e'. e' ∙ e)
      ]

convert_table-Keeps : (s : SectionHeader) (d : Bytes) → Keeps d (convert_table s d)
unfolding convert_table
convert_table-Keeps s d = elim (Bool-cases (s.sh_type == 2)) [
  | inl symtab ↦ rw symtab (
      convert_entries-Keeps convert_symbol 16 convert_symbol-Keeps s.sh_offset s.sh_entsize
        (entry_count s) 0 d)
  | inr other ↦ rw other (elim (Bool-cases (s.sh_type == 4)) [
    | inl rela ↦ rw rela (
        convert_entries-Keeps convert_reloc 12 convert_reloc-Keeps s.sh_offset s.sh_entsize
          (entry_count s) 0 d)
    | inr plain ↦ rw plain refl
  ])
]

convert_sections-Keeps :
    (h : FileHeader) (left i : ℕ) (d : Bytes) → Keeps d (convert_sections h left i d)
unfolding convert_sections
convert_sections-Keeps h zero i d = refl
convert_sections-Keeps h (suc left) i d =
    let sh_offset = h.e_shoff + i * h.e_shentsize in
    elim (Bool-cases (ltb (length d) (sh_offset + 40))) [
      | inl past ↦ rw (past, convert_sections) refl
      | inr inside ↦
          rw (inside, convert_sections)
            (Returns-bind (SwappedAll section_widths sh_offset d) (λ out. length out ≡ length d)
              (swap_fields section_widths sh_offset d) _
              (swap_fields-SwappedAll section_widths sh_offset d (ground arith))
              λ (vs, d₁) (_, _, r).
                Returns-bind (λ out. length out ≡ length d₁) (λ out. length out ≡ length d)
                  (convert_table (section_of vs) d₁) _ (convert_table-Keeps (section_of vs) d₁)
                  λ d₂ e.
                    Returns-map (λ out. length out ≡ length d₂) _ _
                      (convert_sections-Keeps h left (i + 1) d₂) λ out e'. e' ∙ e ∙ r.same_length)
    ]

convert_object-Returns :
    (d : Bytes)
    → 52 ≤ length d
    → All IsByte d
    → Returns (λ o. (out : Bytes) × (o ≡ some out) × (length out ≡ length d)) (convert_object d)
unfolding convert_object
convert_object-Returns d h k =
    let (b, e) = get_elem?-some d 5 (omega arith) in
    rw (byte_at-some d 5 e) (
      Returns-bind (λ (r : FileHeader × Bytes). IsConverted d r.0 r.1) _ (convert_header d) _
        (convert_header-Returns d h k)
        λ (hdr, d₁) c.
          Returns-bind (λ out. length out ≡ length d₁) _ (convert_sections hdr hdr.e_shnum 0 d₁) _
            (convert_sections-Keeps hdr hdr.e_shnum 0 d₁)
            λ out l. (out, refl, l ∙ c.rest.same_length))

-- A 32-bit ELF object of at least the size of an ELF header is converted, whatever its tables say,
-- and the file that is written has the length of the one that was read.
pub convert_elf-Keeps :
    (d : Bytes)
    → 52 ≤ length d
    → All IsByte d
    → slice d 0 4 ≡ magic
    → get_elem? d 4 ≡ some 1
    → (out : Bytes) × (convert_elf d ≡ ok (some out)) × (length out ≡ length d)
unfolding convert_elf
convert_elf-Keeps d h k m c =
    let (o, e, (out, f, l)) = Returns-ok _ (convert_object d) (convert_object-Returns d h k) in
    (out, rw ((equal_iff (slice d 0 4) magic).1 m, byte_at-some d 4 c, e, f), l)

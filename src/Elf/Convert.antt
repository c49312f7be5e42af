-- ===== src/Elf/Convert.antt =====
-- `convert_elf` of tb/i51elf_le2be.py: the fields of a big-endian object rewritten little-endian,
-- in place. Reading and writing of files and the messages are left out; a crash of the script is
-- an error of the result, `none` is the return of `False`, `some out` the file that is written.
pub mod Fields
pub mod Header
pub mod Total
use binutils_mcs.Base.{
  ℕ, zero, suc, ◌+◌, ◌*◌, ◌/◌, ◌≡◌, Bool, true, false, not, Option, none, some, List, [], ◌∷◌, ltb,
  ◌==◌, if◌then◌else◌, Result, ok, err, ◌>>=◌, length, set,
}
use binutils_mcs.Base.Bytes.{Bytes, slice, splice, equal}
use binutils_mcs.Elf.Struct.{Exc, magic, byte_at, unpack_be, pack_le, signed, pattern_of}

-- One field of `w` bytes at `off`, unpacked as `>` and packed as `<`; the value is kept.
unfoldable pub swap : ℕ → ℕ → Bytes → Result Exc (ℕ × Bytes)
swap w off d = do
  v ← unpack_be w (slice d off (off + w))
  ok (v, splice d off (off + w) (pack_le w v))

-- The same for a signed field of four bytes (`>i` and `<i`).
unfoldable pub swap_signed : ℕ → Bytes → Result Exc Bytes
unfolding signed pattern_of
swap_signed off d = do
  v ← unpack_be 4 (slice d off (off + 4))
  ok (splice d off (off + 4) (pack_le 4 (pattern_of (signed v))))

-- Fields that stand one behind the other, in the order of the source; their values.
unfoldable pub swap_fields : List ℕ → ℕ → Bytes → Result Exc (List ℕ × Bytes)
swap_fields [] off d = ok ([], d)
swap_fields (w ∷ ws) off d = do
  (v, d') ← swap w off d
  (vs, out) ← swap_fields ws (off + w) d'
  ok (v ∷ vs, out)

-- What the rest of the function uses of the ELF header and of a section header.
pub record FileHeader : Type 0 where
  pub e_shoff : ℕ
  pub e_shentsize : ℕ
  pub e_shnum : ℕ

pub record SectionHeader : Type 0 where
  pub sh_type : ℕ
  pub sh_offset : ℕ
  pub sh_size : ℕ
  pub sh_entsize : ℕ

-- e_version, e_entry, e_phoff, e_shoff and e_flags; e_ehsize to e_shstrndx
abbrev pub header_widths : List ℕ
header_widths = 4 ∷ 4 ∷ 4 ∷ 4 ∷ 4 ∷ 2 ∷ 2 ∷ 2 ∷ 2 ∷ 2 ∷ 2 ∷ []

-- sh_name, sh_type, sh_flags, sh_addr, sh_offset, sh_size, sh_link, sh_info, sh_addralign and
-- sh_entsize
abbrev pub section_widths : List ℕ
section_widths = 4 ∷ 4 ∷ 4 ∷ 4 ∷ 4 ∷ 4 ∷ 4 ∷ 4 ∷ 4 ∷ 4 ∷ []

unfoldable pub header_of : List ℕ → FileHeader
header_of (version ∷ entry ∷ phoff ∷ shoff ∷ flags ∷ ehsize ∷ phentsize ∷ phnum ∷ entsize ∷ n ∷ r) =
    record { e_shoff = shoff; e_shentsize = entsize; e_shnum = n }
header_of _ = record { e_shoff = 0; e_shentsize = 0; e_shnum = 0 }

unfoldable pub section_of : List ℕ → SectionHeader
section_of (name ∷ type ∷ flags ∷ addr ∷ offset ∷ size ∷ link ∷ info ∷ align ∷ entsize ∷ r) =
    record { sh_type = type; sh_offset = offset; sh_size = size; sh_entsize = entsize }
section_of _ = record { sh_type = 0; sh_offset = 0; sh_size = 0; sh_entsize = 0 }

-- The ELF header: EI_DATA, e_type, the new e_machine, and the other fields.
unfoldable pub convert_header : Bytes → Result Exc (FileHeader × Bytes)
unfolding header_of
convert_header d = do
  (e_type, d₁) ← swap 2 16 (set d 5 1)
  old_machine ← unpack_be 2 (slice d₁ 18 20)
  (vs, d₂) ← swap_fields header_widths 20 (splice d₁ 18 20 (pack_le 2 165))
  ok (header_of vs, d₂)

-- One entry of a symbol table: st_name, st_value, st_size and st_shndx.
unfoldable pub convert_symbol : ℕ → Bytes → Result Exc Bytes
convert_symbol off d = do
  (vs, d₁) ← swap_fields (4 ∷ 4 ∷ 4 ∷ []) off d
  (st_shndx, d₂) ← swap 2 (off + 14) d₁
  ok d₂

-- One entry of a relocation table: r_offset, r_info and the signed r_addend.
unfoldable pub convert_reloc : ℕ → Bytes → Result Exc Bytes
convert_reloc off d = do (vs, d₁) ← swap_fields (4 ∷ 4 ∷ []) off d; swap_signed (off + 8) d₁

-- The loop over the entries of a table from the `j`th on, with `left` to go: `break` where an
-- entry of `size` bytes would run past the end.
unfoldable pub convert_entries :
    (ℕ → Bytes → Result Exc Bytes) → ℕ → ℕ → ℕ → ℕ → ℕ → Bytes → Result Exc Bytes
convert_entries entry size sh_offset sh_entsize zero j d = ok d
convert_entries entry size sh_offset sh_entsize (suc left) j d =
    elim (ltb (length d) (sh_offset + j * sh_entsize + size)) [
      | true ↦ ok d
      | false ↦ do
        d' ← entry (sh_offset + j * sh_entsize) d
        convert_entries entry size sh_offset sh_entsize left (j + 1) d'
    ]

-- `sh_size // sh_entsize if sh_entsize > 0 else 0`
unfoldable pub entry_count : SectionHeader → ℕ
entry_count s = if ltb 0 s.sh_entsize then s.sh_size / s.sh_entsize else 0

-- The table that a section holds, if it is a SHT_SYMTAB or a SHT_RELA.
unfoldable pub convert_table : SectionHeader → Bytes → Result Exc Bytes
convert_table s d =
    if s.sh_type == 2
    then convert_entries convert_symbol 16 s.sh_offset s.sh_entsize (entry_count s) 0 d
    else if s.sh_type == 4
    then convert_entries convert_reloc 12 s.sh_offset s.sh_entsize (entry_count s) 0 d
    else ok d

-- The loop over the section headers from the `i`th on.
unfoldable pub convert_sections : FileHeader → ℕ → ℕ → Bytes → Result Exc Bytes
convert_sections h zero i d = ok d
convert_sections h (suc left) i d = elim (ltb (length d) (h.e_shoff + i * h.e_shentsize + 40)) [
  | true ↦ ok d
  | false ↦ do
    (vs, d₁) ← swap_fields section_widths (h.e_shoff + i * h.e_shentsize) d
    d₂ ← convert_table (section_of vs) d₁
    convert_sections h left (i + 1) d₂
]

-- Behind the checks of the magic number and of the class.
unfoldable pub convert_object : Bytes → Result Exc (Option Bytes)
convert_object d = do
  old_data ← byte_at d 5
  (h, d₁) ← convert_header d
  d₂ ← convert_sections h h.e_shnum 0 d₁
  ok (some d₂)

unfoldable pub convert_elf : Bytes → Result Exc (Option Bytes)
unfolding convert_object
convert_elf d =
    if not (equal (slice d 0 4) magic)
    then ok none
    else do class ← byte_at d 4; if not (class == 1) then ok none else convert_object d

-- ===== src/Tests/Objects.antt =====
-- A 32-bit object of 108 bytes with one symbol table of one entry, and one with a string table,
-- put through the two converters.
use binutils_mcs.Base.{
  ℕ, ◌≡◌, refl, true, Option, some, List, [], ◌∷◌, ◌++◌, ltb, ltb→lt, leb→le, Bool-cases, inl, inr,
  ok, Returns, length, replicate, all, All,
}
use binutils_mcs.Base.Bytes.{Bytes, slice, splice, codes}
use binutils_mcs.Elf.Struct.{IsByte, magic, byte_at, unpack_be, unpack_le, be_value}
use binutils_mcs.Elf.Convert.{FileHeader, convert_header, convert_elf}
use binutils_mcs.Elf.Convert.Header.{IsConverted, convert_header-Returns}
use binutils_mcs.Elf.Convert.Total.{convert_elf-Keeps}
use binutils_mcs.Elf.Symbols.{
  Elf, Section, open_elf, sections, strtabs, symtabs, upper, uppercase_strtab, uppercase_symbols,
  order_of, unpack, field, check_headers, read_header, read_section, sections_from, cons_head,
  split_null, join_upper, lookup_strtab, upper_tables, uppercase_object,
}
use binutils_mcs.Elf.Symbols.Changes.{IsUppercased, uppercase_symbols-IsUppercased}
use binutils_mcs.Elf.Symbols.Total.{uppercase_symbols-total}

pub all-All : (bs : Bytes) → all (λ b. ltb b 256) bs ≡ true → All IsByte bs
all-All [] h = tt
all-All (b ∷ bs) h = elim (Bool-cases (ltb b 256)) [
  | inl byte ↦ (ltb→lt b 256 byte, all-All bs (rw byte at h))
  | inr large ↦ absurd (cc (rw large at h))
]

-- A number as two or as four big-endian bytes.
abbrev half : ℕ → Bytes
half n = 0 ∷ n ∷ []

abbrev word : ℕ → Bytes
word n = 0 ∷ 0 ∷ 0 ∷ n ∷ []

abbrev pub file_header : ℕ → Bytes
file_header sections =
    magic
    ++ 1 ∷ 2 ∷ 1 ∷ replicate 9 0
    ++ half 1
    ++ half 8
    ++ word 1
    ++ word 0
    ++ word 0
    ++ word 52
    ++ word 0
    ++ half 52
    ++ half 0
    ++ half 0
    ++ half 40
    ++ half sections
    ++ half 0

abbrev section_header : ℕ → ℕ → ℕ → ℕ → ℕ → Bytes
section_header type offset size link entsize =
    word 0
    ++ word type
    ++ word 0
    ++ word 0
    ++ word offset
    ++ word size
    ++ word link
    ++ word 0
    ++ word 0
    ++ word entsize

abbrev pub one_symbol : Bytes
one_symbol =
    file_header 1 ++ section_header 2 92 16 0 16 ++ word 1 ++ word 7 ++ word 2 ++ half 0 ++ half 3

convert_elf-Keeps_example :
    (out : Bytes) × (convert_elf one_symbol ≡ ok (some out)) × (length out ≡ length one_symbol)
convert_elf-Keeps_example =
    convert_elf-Keeps one_symbol (leb→le 52 (length one_symbol) refl) (all-All one_symbol refl)
      (unfold slice in refl) refl

convert_header-Returns_example :
    Returns (λ (r : FileHeader × Bytes). IsConverted one_symbol r.0 r.1) (convert_header one_symbol)
convert_header-Returns_example =
    convert_header-Returns one_symbol (leb→le 52 (length one_symbol) refl) (all-All one_symbol refl)

-- A symbol table that names the string table behind it.
abbrev named : Bytes
named =
    file_header 2
    ++ section_header 2 0 0 1 16
    ++ section_header 3 132 4 0 0
    ++ 0 ∷ b'a' ∷ b'Z' ∷ 0 ∷ []

abbrev named_upper : Bytes
named_upper =
    file_header 2
    ++ section_header 2 0 0 1 16
    ++ section_header 3 132 4 0 0
    ++ 0 ∷ b'A' ∷ b'Z' ∷ 0 ∷ []

named_run : uppercase_symbols named ≡ ok (some named_upper)
unfolding uppercase_symbols open_elf read_header check_headers field unpack unpack_be unpack_le
    order_of byte_at slice splice uppercase_object sections_from read_section strtabs symtabs
    upper_tables lookup_strtab uppercase_strtab split_null cons_head join_upper upper be_value
named_run = refl

uppercase_symbols-IsUppercased_example :
    (e : Elf) × (ss : List Section) × (open_elf named ≡ ok e)
    × (sections e named ≡ ok ss)
    × IsUppercased ss named named_upper
uppercase_symbols-IsUppercased_example = uppercase_symbols-IsUppercased named named_run

uppercase_symbols-total_example : (o : Option Bytes) × (uppercase_symbols (codes "MZ") ≡ ok o)
uppercase_symbols-total_example = uppercase_symbols-total (codes "MZ")

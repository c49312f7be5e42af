-- ===== src/Elf/Symbols.antt =====
-- tb/i51elf_sym_uc.py: upper-case the string table of every symbol table, in place. Reading and
-- writing of files and the messages are left out; `none` is the return of `False`.
pub mod Strtab
pub mod Total
pub mod Changes
use binutils_mcs.Base.{
  ℕ, zero, suc, ◌+◌, ◌-◌, ◌*◌, ◌≤◌, Bool, true, false, not, ◌&&◌, ◌||◌, Option, none, some, List,
  [], ◌∷◌, ◌++◌, map, ltb, leb, ◌==◌, if◌then◌else◌, Result, ok, err, ◌>>=◌, length, take,
}
use binutils_mcs.Base.Bytes.{Bytes, slice, splice, equal}
use binutils_mcs.Elf.Struct.{Exc, magic, byte_at, unpack_be, unpack_le}

-- The messages of `NotAnObject`, or another exception.
pub data Failure : Type 0 where
  not_elf : Failure
  too_short : ℕ → Failure
  bad_class : ℕ → Failure
  bad_data : ℕ → Failure
  bad_shentsize : ℕ → Failure
  past_end : Failure
  raised : Exc → Failure

abbrev pub lift {ℓ} : {A : Type ℓ} → Result Exc A → Result Failure A
lift (ok a) = ok a
lift (err e) = err (raised e)

abbrev pub require : Bool → Failure → Result Failure (Unit {0})
require true why = ok tt
require false why = err why

-- EI_DATA: ELFDATA2LSB or ELFDATA2MSB
pub data Order : Type 0 where
  lsb msb : Order

unfoldable pub order_of : ℕ → Result Failure Order
order_of b = if b == 1 then ok lsb else if b == 2 then ok msb else err (bad_data b)

unfoldable pub unpack : Order → ℕ → Bytes → Result Exc ℕ
unpack lsb w bs = unpack_le w bs
unpack msb w bs = unpack_be w bs

-- An object that was read. Its bytes are passed beside it.
pub record Elf : Type 0 where
  pub order : Order
  pub e_shoff : ℕ
  pub e_shentsize : ℕ
  pub e_shnum : ℕ

-- `Elf.u16` and `Elf.u32`, with the width
unfoldable pub field : Order → Bytes → ℕ → ℕ → Result Failure ℕ
field o d w off = lift (unpack o w (slice d off (off + w)))

-- The two checks at the end of `__init__`.
unfoldable pub check_headers : Elf → Bytes → Result Failure Elf
check_headers e d =
    if not (e.e_shnum == 0) && ltb e.e_shentsize 40
    then err (bad_shentsize e.e_shentsize)
    else if ltb (length d) (e.e_shoff + e.e_shnum * e.e_shentsize)
    then err past_end
    else ok e

-- The fields that `__init__` reads, once the order of the bytes is known.
unfoldable pub read_header : Order → Bytes → Result Failure Elf
unfolding check_headers
read_header o d = do
  shoff ← field o d 4 32
  shentsize ← field o d 2 46
  shnum ← field o d 2 48
  check_headers (record { order = o; e_shoff = shoff; e_shentsize = shentsize; e_shnum = shnum }) d

-- `Elf.__init__`
unfoldable pub open_elf : Bytes → Result Failure Elf
unfolding read_header
open_elf d =
    if not (equal (slice d 0 4) magic)
    then err not_elf
    else if ltb (length d) 52
    then err (too_short (length d))
    else do
      class ← lift (byte_at d 4)
      _ ← require (class == 1) (bad_class class)
      b ← lift (byte_at d 5)
      o ← order_of b
      read_header o d

pub record Section : Type 0 where
  pub index : ℕ
  pub sh_type : ℕ
  pub sh_offset : ℕ
  pub sh_size : ℕ
  pub sh_link : ℕ

-- One section header, as `sections` yields it.
unfoldable pub read_section : Elf → Bytes → ℕ → Result Failure Section
read_section e d i =
    let sh = e.e_shoff + i * e.e_shentsize in
    do
      type ← field e.order d 4 (sh + 4)
      offset ← field e.order d 4 (sh + 16)
      size ← field e.order d 4 (sh + 20)
      link ← field e.order d 4 (sh + 24)
      ok (record { index = i; sh_type = type; sh_offset = offset; sh_size = size; sh_link = link })

-- `sections` from the `i`th header on, with `left` to go.
unfoldable pub sections_from : Elf → Bytes → ℕ → ℕ → Result Failure (List Section)
sections_from e d zero i = ok []
sections_from e d (suc left) i = do
  s ← read_section e d i
  rest ← sections_from e d left (i + 1)
  ok (s ∷ rest)

abbrev pub sections : Elf → Bytes → Result Failure (List Section)
sections e d = sections_from e d e.e_shnum 0

-- `bytes.upper`, of one byte
unfoldable pub upper : ℕ → ℕ
upper c = if leb b'a' c && leb c b'z' then c - 32 else c

unfoldable pub cons_head : ℕ → List Bytes → List Bytes
cons_head c [] = (c ∷ []) ∷ []
cons_head c (s ∷ rest) = (c ∷ s) ∷ rest

-- `strtab.split(b'\0')`
unfoldable pub split_null : Bytes → List Bytes
unfolding cons_head
split_null [] = [] ∷ []
split_null (c ∷ cs) = let rest = split_null cs in if c == 0 then [] ∷ rest else cons_head c rest

-- The loop over the strings, with what is written so far.
unfoldable pub join_upper : Bytes → List Bytes → Bytes
join_upper out [] = out
join_upper out (s ∷ rest) = join_upper (out ++ (map upper s ++ 0 ∷ [])) rest

unfoldable pub uppercase_strtab : Bytes → Bytes
unfolding split_null join_upper
uppercase_strtab strtab = take (length strtab) (join_upper [] (split_null strtab))

-- The dictionary of the string tables, the newest entry first, and the list of the symbol tables.
unfoldable pub strtabs : List Section → List (ℕ × (ℕ × ℕ)) → List (ℕ × (ℕ × ℕ))
strtabs [] tabs = tabs
strtabs (s ∷ rest) tabs =
    strtabs rest (if s.sh_type == 3 then (s.index, (s.sh_offset, s.sh_size)) ∷ tabs else tabs)

unfoldable pub symtabs : List Section → List Section
symtabs [] = []
symtabs (s ∷ rest) = let more = symtabs rest in if s.sh_type == 2 then s ∷ more else more

unfoldable pub lookup_strtab : List (ℕ × (ℕ × ℕ)) → ℕ → Option (ℕ × ℕ)
lookup_strtab [] i = none
lookup_strtab ((j, t) ∷ tabs) i = if j == i then some t else lookup_strtab tabs i

-- The loop over the symbol tables.
unfoldable pub upper_tables : List (ℕ × (ℕ × ℕ)) → List Section → Bytes → Option Bytes
upper_tables tabs [] d = some d
upper_tables tabs (s ∷ rest) d = elim (lookup_strtab tabs s.sh_link) [
  | none ↦ none
  | some t ↦ elim (ltb (length d) (t.0 + t.1)) [
    | true ↦ none
    | false ↦
        upper_tables tabs rest
          (splice d t.0 (t.0 + t.1) (uppercase_strtab (slice d t.0 (t.0 + t.1))))
  ]
]

-- The rest of `uppercase_symbols`, on an object that was opened.
unfoldable pub uppercase_object : Elf → Bytes → Result Failure (Option Bytes)
uppercase_object e d = do all ← sections e d; ok (upper_tables (strtabs all []) (symtabs all) d)

-- `NotAnObject` is caught.
abbrev pub caught : Failure → Result Exc (Option Bytes)
caught (raised x) = err x
caught _ = ok none

unfoldable pub uppercase_symbols : Bytes → Result Exc (Option Bytes)
uppercase_symbols d = elim (open_elf d) [
  | err why ↦ caught why
  | ok e ↦ elim (uppercase_object e d) [ ok o ↦ ok o | err why ↦ caught why ]
]

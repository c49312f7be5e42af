-- ===== src/Probes/Guard/Object.antt =====
-- `rd` and `Elf` of tb/sim/run-guard.py, over the bytes of an object. Of a section header the fields are kept that are
-- looked at; the last of all is among them, so what is too short for one is too short here.
pub mod Moved
use binutils_mcs.Base.{
  ℕ, zero, suc, ◌+◌, ◌-◌, ◌*◌, ◌/◌, ◌%◌, ◌^◌, Bool, true, false, not, ◌||◌, Option, none, some,
  List, [], ◌∷◌, ◌++◌, leb, ◌==◌, if◌then◌else◌, length, get_elem?, Result, ok, err, ◌>>=◌,
}
use binutils_mcs.Base.Bytes.{Bytes, slice, splice, equal}
use binutils_mcs.Base.Text.{rev}
use binutils_mcs.Elf.Struct.{Exc, index_error, struct_error, magic, byte_at, pack_le}
use binutils_mcs.Elf.Symbols.{Order, lsb, msb, unpack}

-- What the reading of an object raises.
pub data BadObject : Type 0 where
  value_error : BadObject
  raised : Exc → BadObject

abbrev pub lift {ℓ} : {A : Type ℓ} → Result Exc A → Result BadObject A
lift (ok a) = ok a
lift (err e) = err (raised e)

-- `rd`, with the width of the format
unfoldable pub rd : Order → Bytes → ℕ → ℕ → Result BadObject ℕ
rd end buf off w = lift (unpack end w (slice buf off (off + w)))

-- `struct.pack('>I', …)` and `'<I'`
abbrev pub pack : Order → ℕ → ℕ → Bytes
pack lsb w v = pack_le w v
pack msb w v = rev (pack_le w v)

pub record Shdr : Type 0 where
  pub sh_type : ℕ
  pub sh_offset : ℕ
  pub sh_size : ℕ
  pub sh_info : ℕ
  pub sh_entsize : ℕ

unfoldable pub read_shdr : Order → Bytes → ℕ → Result BadObject Shdr
read_shdr end buf base = do
  type ← rd end buf (base + 4) 4
  offset ← rd end buf (base + 16) 4
  size ← rd end buf (base + 20) 4
  info ← rd end buf (base + 28) 4
  entsize ← rd end buf (base + 36) 4
  ok (record {
    sh_type = type;
    sh_offset = offset;
    sh_size = size;
    sh_info = info;
    sh_entsize = entsize;
  })

-- The section headers from `base` on, `left` of them.
unfoldable pub read_shdrs : Order → Bytes → ℕ → ℕ → ℕ → Result BadObject (List Shdr)
unfolding read_shdr
read_shdrs end buf shentsize zero base = ok []
read_shdrs end buf shentsize (suc left) base = do
  sh ← read_shdr end buf base
  rest ← read_shdrs end buf shentsize left (base + shentsize)
  ok (sh ∷ rest)

-- An object that was read. Its bytes are passed beside it.
pub record Object : Type 0 where
  pub end : Order
  pub shdrs : List Shdr

unfoldable pub end_of : ℕ → Result BadObject Order
end_of b = if b == 1 then ok lsb else if b == 2 then ok msb else err value_error

-- `data[4] != 1` does not hold
abbrev pub need_32 : ℕ → Result BadObject (Unit {0})
need_32 class = if class == 1 then ok tt else err value_error

-- `Elf.__init__`
unfoldable pub read_object : Bytes → Result BadObject Object
unfolding end_of read_shdrs
read_object buf = if not (equal (slice buf 0 4) magic) then err value_error else do
  class ← lift (byte_at buf 4)
  _ ← need_32 class
  b ← lift (byte_at buf 5)
  end ← end_of b
  shoff ← rd end buf 32 4
  shentsize ← rd end buf 46 2
  shnum ← rd end buf 48 2
  shdrs ← read_shdrs end buf shentsize shnum shoff
  ok (record { end = end; shdrs = shdrs })

-- SHT_RELA and RELA_SIZE
abbrev pub sht_rela : ℕ
sht_rela = 4

abbrev pub rela_size : ℕ
rela_size = 12

-- What `relocs` yields.
pub record Reloc : Type 0 where
  pub base : ℕ
  pub r_offset : ℕ
  pub r_type : ℕ
  pub target : Shdr

unfoldable pub read_reloc : Object → Bytes → Shdr → ℕ → Result BadObject Reloc
unfolding rd
read_reloc e buf sh base = do
  r_offset ← rd e.end buf base 4
  info ← rd e.end buf (base + 4) 4
  target ← (elim (get_elem? e.shdrs sh.sh_info) [ none ↦ err (raised index_error) | some t ↦ ok t ])
  ok (record { base = base; r_offset = r_offset; r_type = info % 256; target = target })

-- The entries of one section, `left` of them.
unfoldable pub read_entries : Object → Bytes → Shdr → ℕ → ℕ → ℕ → Result BadObject (List Reloc)
unfolding read_reloc
read_entries e buf sh esz zero base = ok []
read_entries e buf sh esz (suc left) base = do
  r ← read_reloc e buf sh base
  rest ← read_entries e buf sh esz left (base + esz)
  ok (r ∷ rest)

-- `sh['sh_entsize'] or RELA_SIZE`
abbrev pub esz_of : Shdr → ℕ
esz_of sh = if sh.sh_entsize == 0 then rela_size else sh.sh_entsize

unfoldable pub relocs_of : Object → Bytes → List Shdr → Result BadObject (List Reloc)
unfolding read_entries
relocs_of e buf [] = ok []
relocs_of e buf (sh ∷ shs) = do
  rs ←
      (if sh.sh_type == sht_rela
        then read_entries e buf sh (esz_of sh) (sh.sh_size / esz_of sh) sh.sh_offset
        else ok [])
  rest ← relocs_of e buf shs
  ok (rs ++ rest)

-- `Elf.relocs`
abbrev pub relocs : Object → Bytes → Result BadObject (List Reloc)
relocs e buf = relocs_of e buf e.shdrs

-- `Elf.with_r_offset`, of a number that is masked
unfoldable pub with_r_offset : Object → Bytes → ℕ → ℕ → Result BadObject Bytes
with_r_offset e buf base value =
    if leb (base + 4) (length buf)
    then ok (splice buf base (base + 4) (pack e.end 4 (value % 2 ^ 32)))
    else err (raised struct_error)

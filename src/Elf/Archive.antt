-- ===== src/Elf/Archive.antt =====
-- `convert_archive` of tb/i51elf_ar.py: the members of an ar archive put through the two converters,
-- in place. Files, messages and the count of the members are left out; `none` is the return of
-- `False`. A size field below zero, which `int` reads as well, is not followed: it ends the model.
pub mod Splices
pub mod Body
pub mod Entry
pub mod Member
pub mod Layout
pub mod Ends
use binutils_mcs.Base.{
  ℕ, zero, suc, ◌+◌, ◌-◌, ◌*◌, ◌%◌, Bool, true, false, not, Option, none, some, [], ◌++◌, map, ltb,
  ◌==◌, if◌then◌else◌, Result, ok, err, ◌>>=◌, length, take, drop, replicate,
}
use binutils_mcs.Base.Bytes.{Bytes, codes, slice, splice, equal}
use binutils_mcs.Base.Int.{pos, negsuc}
use binutils_mcs.Base.Text.{Text, rstrip, strip}
use binutils_mcs.Base.Decimal.{read_int}
use binutils_mcs.Elf.Struct.{Exc, magic, unpack_be}
use binutils_mcs.Elf.Convert.{convert_elf}
use binutils_mcs.Elf.Symbols.{upper, uppercase_symbols}

-- Why there is no archive: a ValueError of `int`, the two cases of SystemExit, another exception.
-- `exhausted` is the end of the fuel.
pub data Stop : Type 0 where
  value_error negative_size member_failed length_changed : Stop
  raised : Exc → Stop
  exhausted : Stop

abbrev pub ar_magic : Bytes
ar_magic = codes "!<arch>\n"

-- `s.ljust(w)`
abbrev pub ljust : Bytes → ℕ → Bytes
ljust s w = s ++ replicate (w - length s) b' '

-- Both converters, one behind the other.
unfoldable pub convert_member : Bytes → Result Stop Bytes
convert_member payload = elim (convert_elf payload) [
  | err e ↦ err (raised e)
  | ok none ↦ err member_failed
  | ok (some mid) ↦ elim (uppercase_symbols mid) [
    | err e ↦ err (raised e)
    | ok none ↦ err member_failed
    | ok (some out) ↦ if not (length out == length payload) then err length_changed else ok out
  ]
]

-- `int(hdr[48:58].decode("latin1").strip())`
unfoldable pub read_size : Bytes → Result Stop ℕ
unfolding read_int
read_size cs = elim (read_int (strip cs)) [
  | none ↦ err value_error
  | some (negsuc n) ↦ err negative_size
  | some (pos n) ↦ ok n
]

abbrev pub lift {ℓ} : {A : Type ℓ} → Result Exc A → Result Stop A
lift (ok a) = ok a
lift (err e) = err (raised e)

-- `body[:split] + body[split:].upper()`
abbrev pub armap_upper : ℕ → Bytes → Bytes
armap_upper split body = take split body ++ map upper (drop split body)

-- ar_date, ar_uid and ar_gid
unfoldable pub stamp : ℕ → Bytes → Bytes
stamp at d =
    let d₁ = splice d (at + 16) (at + 28) (ljust (codes "0") 12) in
    let d₂ = splice d₁ (at + 28) (at + 34) (ljust (codes "0") 6) in
    splice d₂ (at + 34) (at + 40) (ljust (codes "0") 6)

-- ar_mode
abbrev pub set_mode : Bytes → ℕ → Bytes → Bytes
set_mode mode at d = splice d (at + 40) (at + 48) (ljust mode 8)

abbrev pub set_body : ℕ → ℕ → Bytes → Bytes → Bytes
set_body at size d body = splice d (at + 60) (at + 60 + size) body

-- The armap, and a member that is an object.
unfoldable pub convert_armap : Bytes → Result Stop Bytes
convert_armap body = do n ← lift (unpack_be 4 (slice body 0 4)); ok (armap_upper (4 + 4 * n) body)

abbrev pub put_body : ℕ → ℕ → Bytes → Result Stop Bytes → Result Stop Bytes
put_body at size d (ok body) = ok (set_body at size d body)
put_body at size d (err e) = err e

-- The branches on the name of the member.
unfoldable pub convert_body : Text → ℕ → ℕ → Bytes → Bytes → Result Stop Bytes
unfolding convert_armap convert_member
convert_body name at size body d =
    if equal name (codes "/")
    then put_body at size (set_mode (codes "0") at d) (convert_armap body)
    else if equal name (codes "//")
    then ok (set_mode (codes "0") at d)
    else if equal (slice body 0 4) magic
    then put_body at size (set_mode (codes "644") at d) (convert_member body)
    else ok (set_mode (codes "644") at d)

abbrev pub next_entry : ℕ → ℕ → ℕ
next_entry at size = at + 60 + size + size % 2

-- One turn of the loop: where the next member begins, and the archive.
unfoldable pub convert_entry : ℕ → Bytes → Result Stop (ℕ × Bytes)
unfolding read_size stamp convert_body
convert_entry at d = do
  size ← read_size (slice d (at + 48) (at + 58))
  out ←
      convert_body (rstrip (slice d at (at + 16))) at size (slice d (at + 60) (at + 60 + size))
        (stamp at d)
  ok (next_entry at size, out)

-- The loop over the members.
unfoldable pub convert_entries : ℕ → ℕ → Bytes → Result Stop Bytes
unfolding convert_entry
convert_entries zero at d = elim (ltb (length d) (at + 60)) [ true ↦ ok d | false ↦ err exhausted ]
convert_entries (suc fuel) at d = elim (ltb (length d) (at + 60)) [
  | true ↦ ok d
  | false ↦ do (at', d') ← convert_entry at d; convert_entries fuel at' d'
]

-- A turn goes on by 60 bytes at least, so the length is fuel enough.
unfoldable pub convert_archive : Bytes → Result Stop (Option Bytes)
unfolding convert_entries
convert_archive d =
    if not (equal (slice d 0 8) ar_magic)
    then ok none
    else do out ← convert_entries (length d) 8 d; ok (some out)

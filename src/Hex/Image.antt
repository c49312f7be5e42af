-- ===== src/Hex/Image.antt =====
-- `read_ihex` of tb/hexoracle.py: an Intel HEX file decoded into a flat image. The file is the
-- list of its lines; an exception is a value.
pub mod RoundTrip
use binutils_mcs.Base.{
  ℕ, zero, suc, ◌+◌, ◌*◌, ◌%◌, Bool, true, false, not, Option, none, some, List, [], ◌∷◌, ◌++◌, ltb,
  ◌==◌, if◌then◌else◌, Result, ok, err, ◌>>=◌, length, get_elem?, max,
}
use binutils_mcs.Base.Bytes.{Bytes}
use binutils_mcs.Base.Text.{Text, strip, from_hex}
use binutils_mcs.Hex.Payload.{total}

-- What `read_ihex` raises: its own two ValueErrors, that of `bytes.fromhex`, and an IndexError at a
-- record shorter than its fields say.
pub data IhexError : Type 0 where
  bad_checksum no_data not_hex index_error : IhexError

-- The dictionary of the bytes read so far, the newest write first.
abbrev pub Memory : Type 0
Memory = List (ℕ × ℕ)

unfoldable pub look : Memory → ℕ → Option ℕ
look [] a = none
look ((k, b) ∷ mem) a = if k == a then some b else look mem a

unfoldable pub at : Bytes → ℕ → Result IhexError ℕ
at rec i = elim (get_elem? rec i) [ none ↦ err index_error | some b ↦ ok b ]

-- `for i in range(count): mem[addr + i] = rec[4 + i]`, from `i` on with `left` to go
unfoldable pub store : Bytes → ℕ → ℕ → ℕ → Memory → Result IhexError Memory
store rec addr zero i mem = ok mem
store rec addr (suc left) i mem = do
  b ← at rec (4 + i)
  store rec addr left (i + 1) ((addr + i, b) ∷ mem)

-- The fields of a record whose checksum holds. `true` is the `break` of an end-of-file record.
unfoldable pub apply_record : Bytes → Memory → Result IhexError (Bool × Memory)
unfolding store at
apply_record rec mem = do
  count ← at rec 0
  high ← at rec 1
  low ← at rec 2
  rtype ← at rec 3
  mem' ← if rtype == 0 then store rec (high * 256 + low) count 0 mem else ok mem
  ok (rtype == 1, mem')

-- One stripped line. A line that does not begin with a colon is passed over.
unfoldable pub read_record : Text → Memory → Result IhexError (Bool × Memory)
unfolding apply_record
read_record [] mem = ok (false, mem)
read_record (c ∷ cs) mem = if not (c == b':') then ok (false, mem) else elim (from_hex cs) [
  | none ↦ err not_hex
  | some rec ↦ if not (total rec % 256 == 0) then err bad_checksum else apply_record rec mem
]

unfoldable pub read_lines : List Text → Memory → Result IhexError Memory
read_lines [] mem = ok mem
read_lines (line ∷ lines) mem = elim (read_record (strip line) mem) [
  | err e ↦ err e
  | ok r ↦ elim r.0 [ true ↦ ok r.1 | false ↦ read_lines lines r.1 ]
]

-- `max(mem) + 1`
unfoldable pub extent : Memory → ℕ
extent [] = 0
extent ((k, b) ∷ mem) = max (k + 1) (extent mem)

-- `bytes(mem.get(a, 0xFF) for a in range(…))`, from `a` on with `left` to go
unfoldable pub fill : Memory → ℕ → ℕ → Bytes
fill mem zero a = []
fill mem (suc left) a = (elim (look mem a) [ none ↦ 0xff | some b ↦ b ]) ∷ fill mem left (a + 1)

unfoldable pub flatten : Memory → Result IhexError Bytes
unfolding extent fill look
flatten [] = err no_data
flatten (m ∷ mem) = ok (fill (m ∷ mem) (extent (m ∷ mem)) 0)

unfoldable pub read_ihex : List Text → Result IhexError Bytes
read_ihex lines = do mem ← read_lines lines []; flatten mem

-- ===== src/Hex/Payload.antt =====
-- The golden column of the instruction table: `hex_payload` and `read_table` of tb/isa_check.py.
-- A damaged record is an error. The messages are left out, what they name is kept.
pub mod RoundTrip
pub mod Damage
pub mod Table
use binutils_mcs.Base.{
  ℕ, ◌+◌, ◌-◌, ◌%◌, ◌≡◌, refl, Bool, true, false, not, ◌||◌, Option, none, some, List, [], ◌∷◌, ltb,
  ◌==◌, if◌then◌else◌, Result, ok, err, ◌>>=◌, length, get_elem?,
}
use binutils_mcs.Base.Bytes.{Bytes, slice, equal, starts_with}
use binutils_mcs.Base.Text.{Text, strip, from_hex, split_once}

pub data CorpusError : Type 0 where
  not_record not_hex bad_checksum no_separator : CorpusError
  too_short : ℕ → CorpusError
  bad_type : ℕ → CorpusError
  bad_length : ℕ → ℕ → CorpusError

-- `sum(raw)`
unfoldable pub total : Bytes → ℕ
total [] = 0
total (b ∷ bs) = b + total bs

-- `raw[i]`, where the length has been checked
abbrev pub nth : Bytes → ℕ → ℕ
nth raw i = elim (get_elem? raw i) [ none ↦ 0 | some b ↦ b ]

-- The checks on the bytes of a record, in the order of the source. `& 0xFF` is `% 256`.
unfoldable pub check_record : Bytes → Result CorpusError Bytes
check_record raw =
    if ltb (length raw) 5
    then err (too_short (length raw))
    else if not (nth raw 3 == 0)
    then err (bad_type (nth raw 3))
    else if not (length raw == 5 + nth raw 0)
    then err (bad_length (length raw - 5) (nth raw 0))
    else if not (total raw % 256 == 0)
    then err bad_checksum
    else ok (slice raw 4 (4 + nth raw 0))

unfoldable pub hex_payload : Text → Result CorpusError Bytes
hex_payload [] = err not_record
hex_payload (c ∷ cs) =
    if not (c == b':')
    then err not_record
    else elim (from_hex cs) [ none ↦ err not_hex | some raw ↦ check_record raw ]

-- One row of the table: its line number, the instruction and its bytes.
pub record Entry : Type 0 where
  pub line : ℕ
  pub source : Text
  pub want : Bytes

-- `not line or line.startswith('#')`, of a stripped line
unfoldable pub is_skipped : Text → Bool
is_skipped line = equal line [] || starts_with line (b'#' ∷ [])

-- A line that is not skipped has to parse. The error carries its line number.
unfoldable pub read_line : ℕ → Text → Result (ℕ × CorpusError) Entry
read_line n line = elim (split_once b'|' line) [
  | none ↦ err (n, no_separator)
  | some (src, rec) ↦ elim (hex_payload (strip rec)) [
    | err e ↦ err (n, e)
    | ok want ↦ ok (record { line = n; source = strip src; want = want })
  ]
]

-- `read_table`, from line `n` on.
unfoldable pub read_from : ℕ → List Text → Result (ℕ × CorpusError) (List Entry)
read_from n [] = ok []
read_from n (line ∷ lines) = elim (is_skipped (strip line)) [
  | true ↦ read_from (n + 1) lines
  | false ↦ do e ← read_line n (strip line); rest ← read_from (n + 1) lines; ok (e ∷ rest)
]

abbrev pub read_table : List Text → Result (ℕ × CorpusError) (List Entry)
read_table = read_from 1

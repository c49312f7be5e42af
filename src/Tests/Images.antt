-- ===== src/Tests/Images.antt =====
-- Images of a few bytes, written as Intel HEX, read, compared and judged.
use Prim.Native.String.{String}
use binutils_mcs.Base.{
  ◌+◌, ◌*◌, ◌≡◌, ◌≢◌, refl, ◌↔◌, ◌≤◌, Option, none, some, List, [], ◌∷◌, arith, leb→le, ok, set,
  replicate, All,
}
use binutils_mcs.Base.Bytes.{Bytes, codes, slice}
use binutils_mcs.Base.Int.{negsuc}
use binutils_mcs.Base.Text.{
  Text, from_hex, hex_pair, hex_digit, is_hex_blank, strip, lstrip, is_space, rev_onto, split_once,
}
use binutils_mcs.Hex.Digits.{to_hex}
use binutils_mcs.Hex.Payload.{
  Entry, total, check_record, hex_payload, read_line, read_from, read_table, is_skipped,
}
use binutils_mcs.Hex.Payload.RoundTrip.{
  checksum, record_bytes, record_text, hex_payload-record_text,
}
use binutils_mcs.Hex.Payload.Damage.{check_record-set}
use binutils_mcs.Hex.Image.{
  read_ihex, read_lines, read_record, apply_record, store, at, flatten, fill, extent, look,
}
use binutils_mcs.Hex.Image.RoundTrip.{file_lines, read_ihex-file_lines}
use binutils_mcs.Oracle.Classify.{acall11, word16, none_yet, classify}
use binutils_mcs.Oracle.Classify.Balance.{pairs, singles, diffs, classify-diffs}
use binutils_mcs.Oracle.Classify.Residual.{IsResidual, classify-IsResidual}
use binutils_mcs.Oracle.Classify.Sites.{
  Site, same, field16, zeroed, moved, isa, wrote, counted, IsClear, classify-counted,
}
use binutils_mcs.Oracle.Expect.{
  Expect, judge, exit_status, check_projects, check_project, check_oracle, judge_delta,
  judge_counts, any_failed, expect_of, expect_table,
}
use binutils_mcs.Oracle.Expect.Gate.{IsAsRecorded, Agrees, judge-IsAsRecorded, exit_status-Agrees}

hex_payload-record_text_example :
    hex_payload (record_text 0x100 0 (0x74 ∷ 0x05 ∷ [])) ≡ ok (0x74 ∷ 0x05 ∷ [])
hex_payload-record_text_example =
    hex_payload-record_text 0x100 (0x74 ∷ 0x05 ∷ []) (omega arith) (omega arith)
      (omega arith, (omega arith, tt))

-- :0100000022DD
abbrev ret : Bytes
ret = 1 ∷ 0 ∷ 0 ∷ 0 ∷ 0x22 ∷ 0xdd ∷ []

ret_accepted : check_record ret ≡ ok (0x22 ∷ [])
unfolding check_record total slice
ret_accepted = refl

check_record-set_example : check_record (set ret 4 0x32) ≢ ok (0x32 ∷ [])
check_record-set_example =
    check_record-set ret 4 0x22 0x32 (0x32 ∷ []) ret_accepted refl (omega arith) (omega arith)
      (λ e. omega (arith, e))

abbrev table : List Text
table = codes "# a comment" ∷ codes "nop|:0100000000FF" ∷ [] ∷ codes " ret | :0100000022DD" ∷ []

abbrev entries : List Entry
entries =
    record { line = 2; source = codes "nop"; want = 0 ∷ [] }
    ∷ record { line = 4; source = codes "ret"; want = 0x22 ∷ [] }
    ∷ []

table_read : read_table table ≡ ok entries
unfolding read_from read_line is_skipped strip lstrip is_space rev_onto split_once hex_payload
    from_hex is_hex_blank hex_pair hex_digit check_record total slice
table_read = refl

abbrev chunks : List Bytes
chunks = (0x02 ∷ 0x00 ∷ []) ∷ (0x30 ∷ []) ∷ []

read_ihex-file_lines_example :
    read_ihex (file_lines 0 chunks (codes ":00" ∷ [])) ≡ ok (0x02 ∷ 0x00 ∷ 0x30 ∷ [])
read_ihex-file_lines_example =
    read_ihex-file_lines chunks (codes ":00" ∷ []) (λ e. cc) (leb→le 3 0x10000 refl)
      (
        ((omega arith, (omega arith, (omega arith, tt))), λ e. cc),
        (((omega arith, (omega arith, tt)), λ e. cc), tt),
      )

-- Images that differ at five offsets.
abbrev oracle : Bytes
oracle = 0x02 ∷ 0x34 ∷ 0x00 ∷ 0x74 ∷ 0x00 ∷ 0x55 ∷ []

abbrev produced : Bytes
produced = 0x02 ∷ 0x12 ∷ 0x34 ∷ 0x74 ∷ 0x09 ∷ 0x66 ∷ []

classify-diffs_example :
    let t = classify oracle produced in
    (pairs t + singles t ≤ diffs oracle produced)
    × (diffs oracle produced ≤ 2 * pairs t + singles t)
classify-diffs_example = classify-diffs oracle produced

classify-IsResidual_example : All (IsResidual oracle produced) (classify oracle produced).residuals
classify-IsResidual_example = classify-IsResidual oracle produced

abbrev sites : List Site
sites =
    same 0x12
    ∷ field16 word16 0x01 0x5c
    ∷ field16 acall11 0x71 0x22
    ∷ zeroed 0x40
    ∷ same 0x75
    ∷ moved 0x33 0x36
    ∷ same 0x22
    ∷ []

sites-IsClear : IsClear sites
sites-IsClear = (
  ((λ e. omega (arith, e)), λ e. omega (arith, e)),
  (
    ((λ e. omega (arith, e)), ((λ e. omega (arith, e)), λ e. omega (arith, e))),
    (
      ((λ e. omega (arith, e)), λ e. cc),
      (((λ e. omega (arith, e)), (λ e. omega (arith, e)), λ e. cc), tt),
    ),
  ),
)

classify-counted_example : classify (wrote sites) (isa sites) ≡ counted 0 sites none_yet
classify-counted_example = classify-counted sites sites-IsClear

abbrev grown : Expect
grown = record { oracle = 6; delta = negsuc 1; counts = none }

judge-IsAsRecorded_example :
    ((judge grown oracle (0x02 ∷ [])).failures ≡ []) ↔ IsAsRecorded grown oracle (0x02 ∷ [])
judge-IsAsRecorded_example = judge-IsAsRecorded grown oracle (0x02 ∷ [])

-- A file with one byte at 1263, and a ROM of three bytes more than it.
abbrev hex : String → Option (List Text)
hex p = some (record_text 1263 0 (0x22 ∷ []) ∷ [])

abbrev rom : String → Option Bytes
rom p = some (replicate 1267 0)

abbrev diag : List String
diag = "diag" ∷ []

diag_passes : exit_status hex rom diag ≡ ok 0
unfolding exit_status check_projects check_project check_oracle judge judge_delta judge_counts
    any_failed expect_of expect_table read_ihex read_lines read_record apply_record store at flatten
    fill extent look strip lstrip is_space rev_onto from_hex is_hex_blank hex_pair hex_digit total
    record_text record_bytes checksum to_hex
diag_passes = refl

exit_status-Agrees_example : (diag ≢ []) × All (Agrees hex rom) diag
exit_status-Agrees_example = exit_status-Agrees hex rom diag diag_passes

-- ===== src/Tests/Instructions.antt =====
-- The instruction gate on a table of one row, with tools that know one instruction.
use binutils_mcs.Base.{ℕ, ◌≡◌, ◌≢◌, refl, true, false, some, List, [], ◌∷◌, ok}
use binutils_mcs.Base.Bytes.{Bytes, codes, slice}
use binutils_mcs.Base.Text.{
  Text, strip, from_hex, is_hex_blank, hex_pair, hex_digit, is_space, split_once, universal_from,
  splitlines, contains, lstrip,
}
use binutils_mcs.Hex.Payload.{
  Entry, read_table, read_from, read_line, is_skipped, hex_payload, check_record, total,
}
use binutils_mcs.Corpus.Disasm.{assemble, decodes, hex_value, first_word}
use binutils_mcs.Base.Scan.{span}
use binutils_mcs.Corpus.Branch.{mismatch, resyntax}
use binutils_mcs.Corpus.Stages.{run_table}
use binutils_mcs.Corpus.Stages.Run.{Passes, run_table-Passes}
use binutils_mcs.Corpus.Dialect.{translate}
use binutils_mcs.Corpus.Main.{main}
use binutils_mcs.Corpus.Main.Exit.{Chosen, IsRequest, ProgramAssembles, main-Passes}

abbrev as_new : Text → ℕ × (Text × Bytes)
as_new source = (0, ([], source))

abbrev objcopy : Bytes → ℕ × (Text × Bytes)
objcopy object = (0, ([], 0 ∷ []))

abbrev objdump : Bytes → ℕ × (Text × Text)
objdump bytes = (0, ([], codes "out.bin:\n\n   0:\t00 \tnop\n"))

abbrev table : List Text
table = codes "# one row\n" ∷ codes "nop|:0100000000FF\n" ∷ []

abbrev stages : List Text
stages = codes "decode" ∷ codes "roundtrip" ∷ []

abbrev nop : Entry
nop = record { line = 2; source = codes "nop"; want = 0 ∷ [] }

read_table_run : read_table table ≡ ok (nop ∷ [])
unfolding read_from read_line is_skipped strip split_once hex_payload from_hex is_hex_blank hex_pair
    hex_digit check_record total slice
read_table_run = refl

run_table_run : run_table as_new objcopy objdump stages table ≡ ok 0
unfolding run_table read_from read_line is_skipped strip split_once hex_payload from_hex
    is_hex_blank hex_pair hex_digit check_record total slice decodes splitlines universal_from
    contains mismatch resyntax assemble
run_table_run = refl

run_table-Passes_example :
    (es : List Entry) × (read_table table ≡ ok es)
    × (es ≢ [])
    × Passes as_new objcopy objdump stages es
run_table-Passes_example = run_table-Passes as_new objcopy objdump stages table run_table_run

-- A relative branch whose displacement is not its target is refused, and one whose displacement is.
mismatch_run :
    (mismatch (codes "sjmp .+0x04") (codes "0x0006 x") ≡ true)
    × (mismatch (codes "sjmp .-0x7E") (codes "0xFF82") ≡ false)
    × (resyntax (codes "jz .+0x06") (codes "0x0006") ≡ some (codes "jz 0x0006"))
unfolding mismatch resyntax span first_word lstrip is_space hex_value hex_digit
mismatch_run = (refl, refl, refl)

translate_run :
    translate (codes "t: mov a,#0FFh ; 66hx\n db 12h, 7\n end ")
    ≡ codes "t: mov a,#0x0FF ; 66hx\n .byte 0x12, 7\n"
unfolding translate splitlines
translate_run = refl

-- A program in Intel spelling behind the table; the tools take any text.
main_run :
    main as_new objcopy objdump
      (codes "decode,roundtrip")
      (some table)
      (some (codes " mov a,#66h\n end\n"))
      true
    ≡ ok 0
unfolding main run_table read_from read_line is_skipped strip split_once hex_payload from_hex
    is_hex_blank hex_pair hex_digit check_record total slice decodes splitlines universal_from
    contains mismatch resyntax assemble
main_run = refl

main-Passes_example :
    (ss : List Text) × IsRequest (codes "decode,roundtrip") ss
    × Chosen true ss
    × ((lines : List Text)
        → some table ≡ some lines
        → (es : List Entry) × (read_table lines ≡ ok es)
          × (es ≢ [])
          × Passes as_new objcopy objdump ss es)
    × ((source : Text)
        → some (codes " mov a,#66h\n end\n") ≡ some source
        → ProgramAssembles as_new objcopy objdump true source)
main-Passes_example =
    main-Passes as_new objcopy objdump (codes "decode,roundtrip") (some table)
      (some (codes " mov a,#66h\n end\n")) true main_run

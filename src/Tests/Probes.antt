-- ===== src/Tests/Probes.antt =====
-- The runner of the bit probe over tools that refuse a source with an `f` and make the same two bytes of all others.
use binutils_mcs.Base.{ℕ, ◌≡◌, refl, true, false, Option, none, some, List, [], ◌∷◌, ok, All}
use binutils_mcs.Base.Bytes.{Bytes, codes}
use binutils_mcs.Base.Text.{
  Text, contains, strip, lstrip, is_space, rev_onto, from_hex, hex_digit, hex_pair, is_hex_blank,
}
use binutils_mcs.Base.Decimal.{decimal_from}
use binutils_mcs.Probes.Bits.{AsmCase, LinkCase, acase, lcase, not_bit}
use binutils_mcs.Probes.Run.{run_cases}
use binutils_mcs.Probes.Run.Passed.{AsmPasses, LinkPasses, run_cases-Passes}

abbrev as_new : Text → ℕ × (Text × Text)
as_new p = elim (contains (codes "f") p) [
  | true ↦ (1, (codes "in.s:4: not bit addressable\n", []))
  | false ↦ (0, ([], p))
]

abbrev objcopy : Text → ℕ × (Text × Bytes)
objcopy o = (0, ([], 0xa2 ∷ 0x00 ∷ []))

abbrev dump_section : Text → Text → ℕ × Option Bytes
dump_section name o = (1, none)

abbrev ld : Text → List (Text × ℕ) → ℕ × (Text × Text)
ld o defsyms = (0, ([], o))

abbrev asm_table : List AsmCase
asm_table =
    acase (codes "first") (codes "mov c,0x20.0") (some (codes "a2 00")) none (codes ".text")
    ∷ acase (codes "past") (codes "mov c,0xff.7") none (some not_bit) (codes ".text")
    ∷ []

abbrev link_table : List LinkCase
link_table = lcase (codes "link") 0x20 0 (some 0x00) none ∷ []

status : run_cases Text as_new objcopy dump_section ld asm_table link_table ≡ ok 0
unfolding run_cases contains strip lstrip is_space rev_onto from_hex hex_digit hex_pair is_hex_blank
    decimal_from
status = refl

run_cases-Passes_example :
    All (AsmPasses Text as_new objcopy dump_section ld) asm_table
    × All (LinkPasses Text as_new objcopy dump_section ld) link_table
run_cases-Passes_example =
    run_cases-Passes Text as_new objcopy dump_section ld asm_table link_table status

-- ===== src/Tests/Branch.antt =====
-- The branch probe over tools that refuse a source with an `a`, and make two zeros and a branch of a source with padding.
use binutils_mcs.Base.{ℕ, ◌≡◌, refl, true, false, none, some, List, [], ◌∷◌, ok, All}
use binutils_mcs.Base.Bytes.{Bytes, codes}
use binutils_mcs.Base.Text.{Text, contains, from_hex, hex_digit, hex_pair, is_hex_blank}
use binutils_mcs.Probes.Branch.{Case, case, exit_code, source_of}
use binutils_mcs.Probes.Branch.Encoded.{IsEncoded, exit_code-IsEncoded}

abbrev as_new : Text → ℕ × (Text × Text)
as_new p = elim (contains (codes "a") p) [
  | true ↦ (1, (codes "in.s: Assembler messages:\nin.s:1: out of range\n", []))
  | false ↦ (0, ([], p))
]

abbrev objcopy : Text → ℕ × (Text × Bytes)
objcopy o = elim (contains (codes "skip") o) [
  | true ↦ (0, ([], 0 ∷ 0 ∷ 0x80 ∷ 0xfa ∷ []))
  | false ↦ (0, ([], 0x80 ∷ 0x04 ∷ []))
]

abbrev table : List Case
table =
    case (codes "fwd") (codes "sjmp 0x0006") (some (codes "80 04")) 0
    ∷ case (codes "back") (codes "sjmp 0x0000") (some (codes "80 fa")) 2
    ∷ case (codes "cross") (codes "ajmp 0x0800") none 0
    ∷ []

padded :
    source_of (case (codes "cross") (codes "ajmp 0x07fd") none 0x7fe)
    ≡ codes ".skip 0x7fe\najmp 0x07fd"
unfolding source_of
padded = refl

passed : exit_code Text as_new objcopy table ≡ ok 0
unfolding exit_code contains from_hex is_hex_blank hex_pair hex_digit
passed = refl

exit_code-IsEncoded_example : All (IsEncoded Text as_new objcopy) table
exit_code-IsEncoded_example = exit_code-IsEncoded Text as_new objcopy table passed

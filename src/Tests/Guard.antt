-- ===== src/Tests/Guard.antt =====
-- The guard over an as-new that makes one object with a relocation of type 3, at the second byte of a section of two bytes,
-- and a linker that complains of an offset behind them.
use binutils_mcs.Base.{
  ℕ, ◌≡◌, refl, none, some, List, [], ◌∷◌, ◌++◌, if◌then◌else◌, replicate, get_elem?, ltb, ok, All,
  arith,
}
use binutils_mcs.Base.Bytes.{Bytes, codes, slice, splice}
use binutils_mcs.Base.Text.{Text, strip, rev_onto, contains}
use binutils_mcs.Elf.Struct.{byte_at, unpack_be, be_value, pack_le}
use binutils_mcs.Elf.Symbols.{msb, unpack}
use binutils_mcs.Probes.Guard.Object.{Object, read_object, rd, relocs_of, with_r_offset}
use binutils_mcs.Probes.Guard.Object.Moved.{IsMoved, with_r_offset-IsMoved}
use binutils_mcs.Probes.Guard.Run.{Probe, status, cases_of}
use binutils_mcs.Probes.Guard.Run.Exact.{IsExact, cases_of-IsExact}
use binutils_mcs.Probes.Guard.Run.Guarded.{IsGuarded, status-IsGuarded}

abbrev word : ℕ → Bytes
word b = 0 ∷ 0 ∷ 0 ∷ b ∷ []

abbrev header : ℕ → ℕ → ℕ → ℕ → ℕ → Bytes
header type offset size info entsize =
    word 0
    ++ (word type
        ++ (word 0
            ++ (word 0
                ++ (word offset
                    ++ (word size ++ (word 0 ++ (word info ++ (word 0 ++ word entsize))))))))

abbrev object : Bytes
object =
    0x7f ∷ b'E' ∷ b'L' ∷ b'F' ∷ 1 ∷ 2 ∷ []
    ++ (replicate 26 0
        ++ (word 52
            ++ (replicate 10 0
                ++ (0 ∷ 40 ∷ 0 ∷ 2 ∷ 0 ∷ 0 ∷ []
                    ++ (header 1 0 2 0 0
                        ++ (header 4 132 12 0 12 ++ (word 1 ++ (word 3 ++ word 0))))))))

abbrev as_new : Text → ℕ × (Text × Bytes)
as_new source = (0, ([], object))

abbrev ld_new : Bytes → List (Text × ℕ) → ℕ × Text
ld_new obj defs = elim (get_elem? obj 135) [
  | none ↦ (1, codes "no object\n")
  | some b ↦ if ltb b 2 then (0, []) else (0, codes "warning: out of range\n")
]

abbrev table : List Probe
table =
    record {
      tag = codes "pcrel";
      rtype = 3;
      source = codes "\tsjmp\tNEAR\n";
      defs = (codes "NEAR", 0x20) ∷ [];
    }
    ∷ []

passed : status as_new ld_new table ≡ ok 0
unfolding status read_object slice byte_at rd unpack unpack_be be_value relocs_of contains strip
    splice pack_le
passed = refl

status-IsGuarded_example : All (IsGuarded as_new ld_new) table
status-IsGuarded_example = status-IsGuarded as_new ld_new table passed

cases_of-IsExact_example : All (IsExact 2 2) (cases_of 9 2 2)
cases_of-IsExact_example = cases_of-IsExact 9 2 2 (omega arith) (omega arith) (omega arith)

abbrev read : Object
read = record { end = msb; shdrs = [] }

abbrev moved : Bytes
moved = 9 ∷ 0x12 ∷ 0x34 ∷ 0x56 ∷ 0x78 ∷ 9 ∷ []

moved_run : with_r_offset read (9 ∷ 0 ∷ 0 ∷ 0 ∷ 0 ∷ 9 ∷ []) 1 0x12345678 ≡ ok moved
unfolding with_r_offset splice pack_le rev_onto
moved_run = refl

with_r_offset-IsMoved_example : IsMoved read (9 ∷ 0 ∷ 0 ∷ 0 ∷ 0 ∷ 9 ∷ []) 1 0x12345678 moved
with_r_offset-IsMoved_example =
    with_r_offset-IsMoved read (9 ∷ 0 ∷ 0 ∷ 0 ∷ 0 ∷ 9 ∷ []) 1 0x12345678 moved_run

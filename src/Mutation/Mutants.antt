-- ===== src/Mutation/Mutants.antt =====
-- `main` of tb/mutation/gen.py: the matches of each operator are numbered, sampled and named. The operators are
-- arguments, functions that yield a line, its replacement and a note, which is left out. `none` is an exception of a list;
-- reading of the files and the writing of the result are left out.
pub mod Ranked
pub mod Ids
pub mod Unique
pub mod Files
pub mod Checked
use binutils_mcs.Base.{
  ℕ, zero, suc, ◌+◌, Bool, true, false, not, ◌&&◌, Option, none, some, List, [], ◌∷◌, ◌++◌, map,
  ltb, ◌==◌, if◌then◌else◌, length, get_elem?,
}
use binutils_mcs.Base.Bytes.{codes, slice}
use binutils_mcs.Base.Int.{ℤ, pos}
use binutils_mcs.Base.Text.{Text}
use binutils_mcs.Base.Decimal.{decimal}
use binutils_mcs.Base.Dict.{Dict, get, member}
use binutils_mcs.Mutation.Run.{Mutant, lines_equal}
use binutils_mcs.Mutation.Generate.{mask_comments, spread}
use binutils_mcs.Mutation.Scopes.{scoped_lines}

-- What an operator yields.
pub record Match : Type 0 where
  pub line : ℕ
  pub new : List Text

-- A match with its number within the line.
pub record Ranking : Type 0 where
  pub line : ℕ
  pub new : List Text
  pub nth : ℕ

-- How often a line has been counted.
unfoldable pub count : ℕ → List ℕ → ℕ
count n [] = 0
count n (m ∷ ms) = let k = count n ms in if m == n then suc k else k

-- `ranked`, behind the lines that are counted so far
unfoldable pub rank_from : List ℕ → List Match → List Ranking
unfolding count
rank_from seen [] = []
rank_from seen (m ∷ ms) =
    record { line = m.line; new = m.new; nth = suc (count m.line seen) }
    ∷ rank_from (m.line ∷ seen) ms

-- `nth[line]` behind the loop
abbrev pub total : List Match → ℕ → ℕ
total ms line = count line (map (λ (m : Match). m.line) ms)

-- `mid`
abbrev pub id_of : Text → Text → List Match → Ranking → Text
id_of key name ms r =
    key
    ++ (b'-'
        ∷ (name
            ++ (b'-'
                ∷ (decimal (r.line + 1)
                    ++ (if ltb 1 (total ms r.line) then b'.' ∷ decimal r.nth else [])))))

-- The mutants of the sample; one that changes nothing is left out.
unfoldable pub name_all :
    Text → Text → Text → List Text → List Match → List Ranking → Option (List Mutant)
name_all key rel name lines ms [] = some []
name_all key rel name lines ms (r ∷ rs) = elim (get_elem? lines r.line) [
  | none ↦ none
  | some old ↦ elim (name_all key rel name lines ms rs) [
    | none ↦ none
    | some rest ↦
        let orig = slice lines r.line (r.line + length r.new) in
        if lines_equal orig r.new
        then some rest
        else some (
            record {
              id = id_of key name ms r;
              file = rel;
              op = name;
              line = r.line + 1;
              old = orig;
              new = r.new;
            }
            ∷ rest)
  ]
]

-- The mutants of one operator in one file.
unfoldable pub of_operator : Text → Text → Text → List Text → ℤ → List Match → Option (List Mutant)
unfolding rank_from spread name_all
of_operator key rel name lines cap ms = elim (spread (rank_from [] ms) cap) [
  | none ↦ none
  | some sample ↦ name_all key rel name lines ms sample
]

-- An entry of OPERATORS.
pub record Operator : Type 0 where
  pub name : Text
  pub run : List Text → List ℕ → List Text → List Match
  pub keys : List Text

-- CAPS
abbrev pub cap_of : ℤ → Text → ℤ
cap_of cap name = elim (get name ((codes "howto", pos 30) ∷ (codes "opctab", pos 24) ∷ [])) [
  | none ↦ cap
  | some c ↦ c
]

-- `key not in keys or (only and name not in only)` does not hold
abbrev pub is_chosen : Option (List Text) → Text → Operator → Bool
is_chosen none key op = member key op.keys
is_chosen (some only) key op = member key op.keys && member op.name only

-- The operators over one file.
unfoldable pub of_file :
    Option (List Text) → ℤ → Text → Text → List Text → List Operator → Option (List Mutant)
unfolding of_operator scoped_lines get
of_file only cap key rel lines [] = some []
of_file only cap key rel lines (op ∷ ops) = elim (of_file only cap key rel lines ops) [
  | none ↦ none
  | some rest ↦
      if is_chosen only key op
      then (elim (of_operator key rel op.name lines (cap_of cap op.name)
          (op.run lines (scoped_lines key lines) (mask_comments lines))) [
            | none ↦ none
            | some ms ↦ some (ms ++ rest)
          ])
      else some rest
]

-- FILES
abbrev pub files : Dict Text
files =
    (codes "gas", codes "gas/config/tc-i51.c")
    ∷ (codes "bfd", codes "bfd/elf32-i51.c")
    ∷ (codes "dis", codes "opcodes/i51-dis.c")
    ∷ (codes "opc", codes "include/opcode/i51.h")
    ∷ (codes "ldsc", codes "ld/scripttempl/elf32i51.sc")
    ∷ []

-- What `main` ends in.
pub data Generated : Type 0 where
  missing duplicate : Text → Generated
  crashed : Generated
  written : List Mutant → Generated

-- The loop over the files, of which `read` gives the lines.
unfoldable pub of_files :
    Option (List Text)
    → ℤ
    → List Operator
    → (Text → Option (List Text))
    → Dict Text
    → List Mutant
    → Generated
unfolding of_file
of_files only cap ops read [] mutants = written mutants
of_files only cap ops read ((key, rel) ∷ rest) mutants = elim (read rel) [
  | none ↦ missing rel
  | some lines ↦ elim (of_file only cap key rel lines ops) [
    | none ↦ crashed
    | some ms ↦ of_files only cap ops read rest (mutants ++ ms)
  ]
]

-- The first id that is there twice.
unfoldable pub twice : List Text → List Mutant → Option Text
twice seen [] = none
twice seen (m ∷ ms) = if member m.id seen then some m.id else twice (m.id ∷ seen) ms

abbrev pub check_ids : Generated → Generated
check_ids (written ms) = elim (twice [] ms) [ none ↦ written ms | some id ↦ duplicate id ]
check_ids g = g

-- `main`, up to what it writes
unfoldable pub main :
    Option (List Text) → ℤ → List Operator → (Text → Option (List Text)) → Generated
unfolding of_files twice
main only cap ops read = check_ids (of_files only cap ops read files [])

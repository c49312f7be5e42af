-- ===== src/Tests/Mutants.antt =====
-- The mutants of two operators in a file of two lines, one of which is matched twice.
use binutils_mcs.Base.{ℕ, ◌≡◌, refl, ◌≤◌, Option, none, some, List, [], ◌∷◌, length, All}
use binutils_mcs.Base.Bytes.{codes, slice}
use binutils_mcs.Base.Int.{pos}
use binutils_mcs.Base.Text.{Text}
use binutils_mcs.Base.Decimal.{decimal_from}
use binutils_mcs.Base.Dict.{get}
use binutils_mcs.Mutation.Run.{Mutant}
use binutils_mcs.Mutation.Scopes.{scoped_lines}
use binutils_mcs.Mutation.Scopes.Spans.{Rises, scoped_lines-Rises}
use binutils_mcs.Mutation.Mutants.{Match, Operator, written, main}
use binutils_mcs.Mutation.Mutants.Files.{IsSound, AreNamed}
use binutils_mcs.Mutation.Mutants.Checked.{unequal, main-IsSound}

abbrev two : List Text → List ℕ → List Text → List Match
two lines idx code =
    record { line = 1; new = codes "a <= b;" ∷ [] }
    ∷ record { line = 1; new = codes "a > b;" ∷ [] }
    ∷ record { line = 0; new = codes "x" ∷ [] }
    ∷ []

abbrev operators : List Operator
operators =
    record { name = codes "relop"; run = two; keys = codes "opc" ∷ [] }
    ∷ record { name = codes "ldnum"; run = two; keys = codes "opc" ∷ codes "ldsc" ∷ [] }
    ∷ []

abbrev lines : List Text
lines = codes "y" ∷ codes "a < b;" ∷ []

abbrev read : Text → Option (List Text)
read path = some lines

abbrev mutant : Text → Text → Text → ℕ → Text → Text → Mutant
mutant id rel op line old new = record {
  id = id;
  file = rel;
  op = op;
  line = line;
  old = old ∷ [];
  new = new ∷ [];
}

named : AreNamed operators
named = (
  ((unequal _ _ refl, tt), (tt, tt)),
  ((refl, (refl, (refl, (refl, (refl, tt))))), ((refl, (refl, (refl, (refl, (refl, tt))))), tt)),
)

generated :
    main none (pos 2) operators read
    ≡ written (
        mutant
          (codes "opc-relop-2.1")
          (codes "include/opcode/i51.h")
          (codes "relop")
          2
          (codes "a < b;")
          (codes "a <= b;")
        ∷ mutant
            (codes "opc-relop-2.2")
            (codes "include/opcode/i51.h")
            (codes "relop")
            2
            (codes "a < b;")
            (codes "a > b;")
        ∷ mutant
            (codes "opc-ldnum-2.1")
            (codes "include/opcode/i51.h")
            (codes "ldnum")
            2
            (codes "a < b;")
            (codes "a <= b;")
        ∷ mutant
            (codes "opc-ldnum-2.2")
            (codes "include/opcode/i51.h")
            (codes "ldnum")
            2
            (codes "a < b;")
            (codes "a > b;")
        ∷ mutant
            (codes "ldsc-ldnum-2.1")
            (codes "ld/scripttempl/elf32i51.sc")
            (codes "ldnum")
            2
            (codes "a < b;")
            (codes "a <= b;")
        ∷ mutant
            (codes "ldsc-ldnum-2.2")
            (codes "ld/scripttempl/elf32i51.sc")
            (codes "ldnum")
            2
            (codes "a < b;")
            (codes "a > b;")
        ∷ [])
unfolding main get slice decimal_from
generated = refl

main-IsSound_example : IsSound (main none (pos 2) operators read)
main-IsSound_example = main-IsSound none (pos 2) operators read named

source : List Text
source =
    codes "i51_bit (int x)"
    ∷ codes "{"
    ∷ codes "  if (x) { y; }"
    ∷ codes "}"
    ∷ codes "other (void)"
    ∷ codes "{ }"
    ∷ []

scoped_lines-Rises_example :
    Rises 0 (scoped_lines (codes "gas") source)
    × All (λ i. i ≤ length source) (scoped_lines (codes "gas") source)
scoped_lines-Rises_example = scoped_lines-Rises (codes "gas") source

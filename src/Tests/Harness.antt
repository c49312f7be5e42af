-- ===== src/Tests/Harness.antt =====
-- One mutant of a file of three lines, killed by the second of three stages.
use binutils_mcs.Base.{ℕ, ◌+◌, ◌≡◌, refl, true, false, none, some, List, [], ◌∷◌}
use binutils_mcs.Base.Bytes.{codes, slice, splice, equal}
use binutils_mcs.Base.Text.{join_lines, Text, universal_from, splitlines, is_break, split}
use binutils_mcs.Base.Dict.{put}
use binutils_mcs.Mutation.Run.{Mutant, Files, Harness, write, flat, gate, apply_text, gate_from}
use binutils_mcs.Mutation.Run.Gate.{verdicts, first_red, first_log, gate-first}
use binutils_mcs.Mutation.Main.{Ended, main, named, selected, sorted_set}
use binutils_mcs.Mutation.Main.Status.{EndsClean, main-EndsClean}

-- The world counts the runs. Stage `oracle` is red.
abbrev rebuild : Files → ℕ → ℕ × (ℕ × Text)
rebuild t w = (w + 1, (0, codes "CC bfd/elf32-i51.o"))

abbrev stage : Text → Files → ℕ → ℕ × (ℕ × Text)
stage st t w = (w + 1, ((elim (equal st (codes "oracle")) [ true ↦ 2 | false ↦ 0 ]), codes "log"))

abbrev stages : List Text
stages = codes "bits" ∷ codes "oracle" ∷ codes "check" ∷ []

abbrev file : Text
file = codes "bfd/elf32-i51.c"

abbrev source : Text
source = codes "a\nb\nc\n"

abbrev tree : Files
tree = write (λ f. none) file source

abbrev harness : Harness
harness = record { tree = tree; pristine = write (λ f. none) (flat file) source; saved = file ∷ [] }

abbrev mutant : Mutant
mutant = record {
  id = codes "m1";
  file = file;
  op = codes "relop";
  line = 2;
  old = codes "b" ∷ [];
  new = codes "B" ∷ [];
}

apply_text_run : apply_text mutant source ≡ some (codes "a\nB\nc\n")
unfolding apply_text universal_from splitlines is_break slice splice join_lines
apply_text_run = refl

-- Fail-first, the third stage is not run.
gate_run :
    (gate ℕ rebuild stage false stages tree 0).rcs ≡ (codes "bits", 0) ∷ (codes "oracle", 2) ∷ []
unfolding gate_from put
gate_run = refl

gate-first_example :
    let g = gate ℕ rebuild stage false stages tree 0 in
    let vs = verdicts ℕ stage stages tree 0 in (g.first ≡ first_red vs) × (g.flog ≡ first_log vs)
gate-first_example = gate-first ℕ rebuild stage false stages tree 0

-- Every stage but the second is named, and the mutant survives.
main-EndsClean_example :
    (e : Ended ℕ rebuild stage) × (main ℕ rebuild stage
        (codes "bits,check")
        []
        false
        true
        (mutant ∷ [])
        tree
        (λ f. none)
        0
      ≡ some e)
    × EndsClean ℕ rebuild stage
        (named (split b',' (codes "bits,check")))
        tree
        true
        (selected [] (mutant ∷ []))
        e
unfolding write
main-EndsClean_example =
    main-EndsClean ℕ rebuild stage (codes "bits,check") [] false true (mutant ∷ []) tree (λ f. none)
      0 ((source, refl), tt) (unfold sorted_set in (tt, tt))

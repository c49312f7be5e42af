-- ===== src/Corpus/Main.antt =====
-- `main` of tb/isa_check.py: the exit status. The files are their lines and their text, and a path
-- that is not given is `none`. Where the tools of the build are missing the script ends before it
-- checks anything; that is left out.
pub mod Exit
use binutils_mcs.Base.{
  ℕ, ◌+◌, ◌≡◌, Bool, true, false, not, ◌&&◌, ◌||◌, Option, none, some, List, [], ◌∷◌, ◌==◌,
  if◌then◌else◌, Result, ok, err, ◌>>=◌, any,
}
use binutils_mcs.Base.Bytes.{Bytes, codes, equal}
use binutils_mcs.Base.Text.{Text, split, universal}
use binutils_mcs.Corpus.Disasm.{Stop, unknown_stages, nothing_to_check, empty_stages, assemble}
use binutils_mcs.Corpus.Dialect.{translate}
use binutils_mcs.Corpus.Stages.{run_table}

-- STAGES
abbrev pub known_stages : List Text
known_stages = codes "assemble" ∷ codes "decode" ∷ codes "roundtrip" ∷ []

-- `[s for s in … if s]`
unfoldable pub nonempty : List Text → List Text
nonempty [] = []
nonempty (s ∷ ss) = if equal s [] then nonempty ss else s ∷ nonempty ss

unfoldable pub unknown : List Text → List Text
unknown [] = []
unknown (s ∷ ss) = if any (equal s) known_stages then unknown ss else s ∷ unknown ss

abbrev is_nil : List Text → Bool
is_nil [] = true
is_nil (s ∷ ss) = false

-- The checks on the arguments, in the order of the source.
unfoldable pub choose : List Text → List Text → Bool → Bool → Result Stop (List Text)
choose (u ∷ us) stages has_table has_program = err (unknown_stages (u ∷ us))
choose [] stages has_table has_program =
    if not has_table && not has_program
    then err nothing_to_check
    else if has_table && is_nil stages
    then err empty_stages
    else ok stages

-- The stages that are asked for, or why the script ends before it runs any.
unfoldable pub checked_stages : Text → Bool → Bool → Result Stop (List Text)
unfolding split nonempty unknown choose
checked_stages text has_table has_program =
    let stages = nonempty (split b',' text) in choose (unknown stages) stages has_table has_program

abbrev pub is_given {ℓ} : {A : Type ℓ} → Option A → Bool
is_given none = false
is_given (some a) = true

module _ (as_new : Text → ℕ × (Text × Bytes)) (objcopy : Bytes → ℕ × (Text × Bytes))
    (objdump : Bytes → ℕ × (Text × Text)) where
  -- The failures of `--program`.
  unfoldable pub run_program : Bool → Text → ℕ
  run_program dialect text =
      let source = if dialect then translate (universal text) else universal text in
      elim (assemble as_new objcopy objdump source) [ err why ↦ 1 | ok got ↦ 0 ]

  abbrev pub table_failures : List Text → Option (List Text) → Result Stop ℕ
  table_failures stages none = ok 0
  table_failures stages (some lines) = run_table as_new objcopy objdump stages lines

  abbrev pub program_failures : Bool → Option Text → ℕ
  program_failures dialect none = 0
  program_failures dialect (some text) = run_program dialect text

  -- What the script exits with; each way to stop is a status of 1.
  unfoldable pub main : Text → Option (List Text) → Option Text → Bool → Result Stop ℕ
  unfolding checked_stages run_program
  main text table program dialect = do
    stages ← checked_stages text (is_given table) (is_given program)
    failures ← table_failures stages table
    ok (if failures + program_failures dialect program == 0 then 0 else 1)

-- ===== src/Corpus/Stages.antt =====
-- `run_table` of tb/isa_check.py: the stages over the entries of the table. The lines that it prints
-- are left out; each stage gives the entries that are bad.
pub mod Pass
pub mod Run
use binutils_mcs.Base.{
  ℕ, suc, ◌+◌, Bool, true, false, not, Option, none, some, List, [], ◌∷◌, ◌++◌, ◌==◌, if◌then◌else◌,
  Result, ok, err, ◌>>=◌, length, any,
}
use binutils_mcs.Base.Bytes.{Bytes, codes, equal}
use binutils_mcs.Base.Text.{Text}
use binutils_mcs.Hex.Payload.{Entry, read_table}
use binutils_mcs.Corpus.Disasm.{
  Insn, Why, tool, other_bytes, disagrees, no_target, Stop, corpus_damaged, assemble, decodes,
}
use binutils_mcs.Corpus.Branch.{mismatch, resyntax}

-- `name in stages`
abbrev pub includes : List Text → Text → Bool
includes stages name = any (equal name) stages

-- The line of an entry, and why it is bad.
abbrev pub Bad : Type 0
Bad = ℕ × Why

-- The dictionary `decoded`, the newest entry first.
abbrev pub Decoded : Type 0
Decoded = List (ℕ × Insn)

unfoldable pub find : Decoded → ℕ → Option Insn
find [] n = none
find ((k, i) ∷ dec) n = if k == n then some i else find dec n

module _ (as_new : Text → ℕ × (Text × Bytes)) (objcopy : Bytes → ℕ × (Text × Bytes))
    (objdump : Bytes → ℕ × (Text × Text)) where
  -- What assembling a text gives against the bytes of the entry.
  unfoldable pub compare_bytes : Entry → Text → List Bad
  compare_bytes e source = elim (assemble as_new objcopy objdump source) [
    | err why ↦ (e.line, tool why) ∷ []
    | ok got ↦ if not (equal got e.want) then (e.line, other_bytes got) ∷ [] else []
  ]

  unfoldable pub assemble_stage : List Entry → List Bad
  unfolding compare_bytes
  assemble_stage [] = []
  assemble_stage (e ∷ es) = compare_bytes e e.source ++ assemble_stage es

  unfoldable pub decode_stage : List Entry → Decoded → Result Stop (List Bad × Decoded)
  decode_stage [] dec = ok ([], dec)
  decode_stage (e ∷ es) dec = elim (decodes as_new objcopy objdump e.want) [
    | err stop ↦ err stop
    | ok (err why) ↦ do (bad, dec') ← decode_stage es dec; ok ((e.line, why) ∷ bad, dec')
    | ok (ok i) ↦ decode_stage es ((e.line, i) ∷ dec)
  ]

  -- An entry whose instruction is known, in the stage `roundtrip`.
  unfoldable pub close_round : Entry → Insn → List Bad
  unfolding compare_bytes
  close_round e i =
      if mismatch i.text i.comment
      then (e.line, disagrees) ∷ []
      else elim (resyntax i.text i.comment) [
        | none ↦ (e.line, no_target) ∷ []
        | some back ↦ compare_bytes e back
      ]

  -- An entry of the stage: whether it is considered, and what is bad about it.
  unfoldable pub round_entry : Bool → Decoded → Entry → Result Stop (Bool × List Bad)
  unfolding find close_round
  round_entry decoding dec e = elim (find dec e.line) [
    | some i ↦ ok (true, close_round e i)
    | none ↦ elim decoding [
      | true ↦ ok (false, [])
      | false ↦ elim (decodes as_new objcopy objdump e.want) [
        | err stop ↦ err stop
        | ok (err why) ↦ ok (true, (e.line, why) ∷ [])
        | ok (ok i) ↦ ok (true, close_round e i)
      ]
    ]
  ]

  -- The number of the entries considered, and the bad ones.
  unfoldable pub round_stage : Bool → Decoded → List Entry → Result Stop (ℕ × List Bad)
  unfolding round_entry
  round_stage decoding dec [] = ok (0, [])
  round_stage decoding dec (e ∷ es) = do
    (considered, bad) ← round_entry decoding dec e
    (n, more) ← round_stage decoding dec es
    ok ((if considered then suc n else n), bad ++ more)

  -- The failures of the three stages over a table that was read.
  unfoldable pub run_stages : List Text → List Entry → Result Stop ℕ
  unfolding assemble_stage decode_stage round_stage
  run_stages stages es = do
    (bad, dec) ← if includes stages (codes "decode") then decode_stage es [] else ok ([], [])
    (n, more) ←
        if includes stages (codes "roundtrip")
        then round_stage (includes stages (codes "decode")) dec es
        else ok (0, [])
    let first = if includes stages (codes "assemble") then assemble_stage es else []
    ok (length first + length bad + length more)

  -- A table without an instruction counts as one failure.
  unfoldable pub run_table : List Text → List Text → Result Stop ℕ
  unfolding run_stages
  run_table stages lines = elim (read_table lines) [
    | err e ↦ err (corpus_damaged e)
    | ok [] ↦ ok 1
    | ok (e ∷ es) ↦ run_stages stages (e ∷ es)
  ]

-- ===== src/Corpus/Stages/Pass.antt =====
-- What a table has that passes the stages of tb/isa_check.py.
use binutils_mcs.Base.{
  append-nil_both, ℕ, ◌+◌, ◌≤◌, ◌<◌, ◌≡◌, ◌∙◌, false, some, List, [], ◌∷◌, arith, ok, err,
  >>=-eq-ok, All, Bool-cases, Option-cases, Result-cases, inl, inr,
}
use binutils_mcs.Base.Bytes.{Bytes, equal_iff}
use binutils_mcs.Base.Text.{Text}
use binutils_mcs.Hex.Payload.{Entry}
use binutils_mcs.Corpus.Disasm.{Insn, assemble, decodes}
use binutils_mcs.Corpus.Branch.{mismatch, resyntax}
use binutils_mcs.Corpus.Stages.{
  Bad, Decoded, find, compare_bytes, assemble_stage, decode_stage, close_round,
}

-- The lines of the entries ascend from `n` on, as those of a table that was read do.
abbrev pub Ascending : ℕ → List Entry → Type 0
Ascending n [] = Unit
Ascending n (e ∷ es) = (n ≤ e.line) × Ascending (e.line + 1) es

module _ (as_new : Text → ℕ × (Text × Bytes)) (objcopy : Bytes → ℕ × (Text × Bytes))
    (objdump : Bytes → ℕ × (Text × Text)) where
  -- The assembler makes the golden bytes of the source.
  abbrev pub Assembles : Entry → Type 0
  Assembles e = assemble as_new objcopy objdump e.source ≡ ok e.want

  -- The golden bytes are decoded to an instruction.
  abbrev pub Decodes : Entry → Type 0
  Decodes e = (i : Insn) × (decodes as_new objcopy objdump e.want ≡ ok (ok i))

  -- What is printed for a branch agrees with itself, and assembles to the golden bytes.
  abbrev pub ClosesWith : Entry → Insn → Type 0
  ClosesWith e i =
      (mismatch i.text i.comment ≡ false)
      × (back : Text) × (resyntax i.text i.comment ≡ some back)
      × (assemble as_new objcopy objdump back ≡ ok e.want)

  abbrev pub Closes : Entry → Type 0
  Closes e = (i : Insn) × (decodes as_new objcopy objdump e.want ≡ ok (ok i)) × ClosesWith e i

  pub compare_bytes-nil :
      (e : Entry) (source : Text)
      → compare_bytes as_new objcopy objdump e source ≡ []
      → assemble as_new objcopy objdump source ≡ ok e.want
  unfolding compare_bytes
  compare_bytes-nil e source h = elim (Result-cases (assemble as_new objcopy objdump source)) [
    | inl (got, is) ↦ ground (arith, is, equal_iff got e.want)
    | inr (why, is) ↦ ground (arith, is)
  ]

  pub assemble_stage-nil :
      (es : List Entry) → assemble_stage as_new objcopy objdump es ≡ [] → All Assembles es
  unfolding assemble_stage
  assemble_stage-nil [] h = tt
  assemble_stage-nil (e ∷ es) h =
      let (one, more) = append-nil_both (compare_bytes as_new objcopy objdump e e.source) _ h in
      (compare_bytes-nil e e.source one, assemble_stage-nil es more)

  pub close_round-nil :
      (e : Entry) (i : Insn) → close_round as_new objcopy objdump e i ≡ [] → ClosesWith e i
  unfolding close_round
  close_round-nil e i h = elim (Bool-cases (mismatch i.text i.comment)) [
    | inl differs ↦ cc (rw (differs, close_round) at h)
    | inr agrees ↦ elim (Option-cases (resyntax i.text i.comment)) [
      | inl nothing ↦ cc (rw (agrees, nothing, close_round) at h)
      | inr (back, is) ↦
          (agrees, back, is, compare_bytes-nil e back (rw (agrees, is, close_round) at h))
    ]
  ]

  -- An entry that is decoded, with its instruction in the dictionary.
  abbrev pub Found : Decoded → Entry → Type 0
  Found dec e =
      (i : Insn) × (decodes as_new objcopy objdump e.want ≡ ok (ok i)) × (find dec e.line ≡ some i)

  -- Later entries do not reach the keys below them.
  decode_stage-find :
      (n : ℕ) (es : List Entry) (dec : Decoded) (k : ℕ) (bad : List Bad) (dec' : Decoded)
      → Ascending n es
      → k < n
      → decode_stage as_new objcopy objdump es dec ≡ ok (bad, dec')
      → find dec' k ≡ find dec k
  unfolding decode_stage find
  decode_stage-find n [] dec k bad dec' up lt h = ground arith
  decode_stage-find n (e ∷ es) dec k bad dec' up lt h =
      elim (Result-cases (decodes as_new objcopy objdump e.want)) [
        | inr (stop, is) ↦ cc (rw (is, decode_stage) at h)
        | inl (ok i, is) ↦
            let later =
              decode_stage-find (e.line + 1) es ((e.line, i) ∷ dec) k bad dec' up.1 (omega arith)
                (rw (is, decode_stage) at h) in
            ground (arith, later)
        | inl (err why, is) ↦
            let (r, more, same) =
              >>=-eq-ok (decode_stage as_new objcopy objdump es dec) _
                (rw (is, decode_stage) at h) in
            let later = decode_stage-find (e.line + 1) es dec k r.0 r.1 up.1 (omega arith) more in
            cc (same, later)
      ]

  pub decode_stage-Found :
      (n : ℕ) (es : List Entry) (dec : Decoded) {dec' : Decoded}
      → Ascending n es
      → decode_stage as_new objcopy objdump es dec ≡ ok ([], dec')
      → All (Found dec') es
  unfolding decode_stage find
  decode_stage-Found n [] dec up h = tt
  decode_stage-Found n (e ∷ es) dec {dec'} up h =
      elim (Result-cases (decodes as_new objcopy objdump e.want)) [
        | inr (stop, is) ↦ cc (rw (is, decode_stage) at h)
        | inl (ok i, is) ↦
            let rest = rw (is, decode_stage) at h in
            (
              (
                i,
                is,
                decode_stage-find (e.line + 1) es ((e.line, i) ∷ dec) e.line [] dec' up.1
                      (omega arith) rest
                    ∙ ground arith,
              ),
              decode_stage-Found (e.line + 1) es ((e.line, i) ∷ dec) up.1 rest,
            )
        | inl (err why, is) ↦
            let (r, more, same) =
              >>=-eq-ok (decode_stage as_new objcopy objdump es dec) _
                (rw (is, decode_stage) at h) in
            cc same
      ]

-- ===== src/Corpus/Stages/Run.antt =====
-- What a run over the table has shown that ends with no failure.
use binutils_mcs.Base.{
  append-nil_both, length-zero, ℕ, ◌+◌, ◌≤◌, ◌≡◌, refl, ap, Bool, true, false, none, List, [], ◌∷◌,
  arith, Result, ok, err, >>=-eq-ok, length, All, Bool-cases, Result-cases, inl, inr, if◌then◌else◌,
  ◌≢◌,
}
use mathlib.Core.Path.{subst}
use binutils_mcs.Base.Bytes.{Bytes, codes}
use binutils_mcs.Base.Text.{Text, strip}
use binutils_mcs.Hex.Payload.{Entry, is_skipped, read_line, read_from, read_table}
use binutils_mcs.Hex.Payload.Table.{read_line-line}
use binutils_mcs.Corpus.Disasm.{Stop, decodes}
use binutils_mcs.Corpus.Stages.{
  Bad, Decoded, find, includes, assemble_stage, decode_stage, round_entry, round_stage, run_stages,
  run_table,
}
use binutils_mcs.Corpus.Stages.Pass.{
  Ascending, Assembles, Decodes, Closes, Found, assemble_stage-nil, close_round-nil,
  decode_stage-Found,
}

ok-injective : {E A : Type 0} (a b : A) → ◌≡◌ {A = Result E A} (ok a) (ok b) → a ≡ b
ok-injective a b h = cc

Ascending-le : (n k : ℕ) (es : List Entry) → k ≤ n → Ascending n es → Ascending k es
Ascending-le n k [] h up = tt
Ascending-le n k (e ∷ es) h up = (omega arith, up.1)

read_from-Ascending :
    (n : ℕ) (lines : List Text) (es : List Entry) → read_from n lines ≡ ok es → Ascending n es
unfolding read_from
read_from-Ascending n [] [] h = tt
read_from-Ascending n [] (e ∷ es) h = cc
read_from-Ascending n (line ∷ lines) es h = elim (Bool-cases (is_skipped (strip line))) [
  | inl skip ↦
      Ascending-le (n + 1) n es (omega arith)
        (read_from-Ascending (n + 1) lines es (rw (skip, read_from) at h))
  | inr keep ↦
      let (e, one, later) = >>=-eq-ok (read_line n (strip line)) _ (rw (keep, read_from) at h) in
      let (rest, more, same) = >>=-eq-ok (read_from (n + 1) lines) _ later in
      let here : e.line ≡ n = read_line-line n (strip line) one in
      let up : Ascending (n + 1) rest = read_from-Ascending (n + 1) lines rest more in
      subst (Ascending n) (ok-injective (e ∷ rest) es same)
        (omega arith, Ascending-le (n + 1) (e.line + 1) rest (omega arith) up)
]

module _ (as_new : Text → ℕ × (Text × Bytes)) (objcopy : Bytes → ℕ × (Text × Bytes))
    (objdump : Bytes → ℕ × (Text × Text)) where
  -- Either the dictionary has the instruction of the entry, or the stage decodes it.
  abbrev Known : Bool → Decoded → Entry → Type 0
  Known true dec e = Found as_new objcopy objdump dec e
  Known false dec e = find dec e.line ≡ none

  round_entry-Closes :
      (decoding : Bool) (dec : Decoded) (e : Entry) {considered : Bool}
      → Known decoding dec e
      → round_entry as_new objcopy objdump decoding dec e ≡ ok (considered, [])
      → Closes as_new objcopy objdump e
  unfolding round_entry
  round_entry-Closes true dec e (i, is, at) h = (
    i,
    is,
    close_round-nil as_new objcopy objdump e i (ground (arith, rw (at, round_entry) at h)),
  )
  round_entry-Closes false dec e at h =
      elim (Result-cases (decodes as_new objcopy objdump e.want)) [
        | inr (stop, is) ↦ cc (rw (at, is, round_entry) at h)
        | inl (err why, is) ↦ cc (rw (at, is, round_entry) at h)
        | inl (ok i, is) ↦ (
          i,
          is,
          close_round-nil as_new objcopy objdump e i
              (ground (arith, rw (at, is, round_entry) at h)),
        )
      ]

  round_stage-Closes :
      (decoding : Bool) (dec : Decoded) (es : List Entry) {n : ℕ}
      → All (Known decoding dec) es
      → round_stage as_new objcopy objdump decoding dec es ≡ ok (n, [])
      → All (Closes as_new objcopy objdump) es
  unfolding round_stage
  round_stage-Closes decoding dec [] k h = tt
  round_stage-Closes decoding dec (e ∷ es) k h =
      let (r, one, later) = >>=-eq-ok (round_entry as_new objcopy objdump decoding dec e) _ h in
      let (s, more, same) =
        >>=-eq-ok (round_stage as_new objcopy objdump decoding dec es) _ later in
      let (none_here, none_later) =
        append-nil_both r.1 s.1 (ap (λ (p : ℕ × List Bad). p.1) (ok-injective _ _ same)) in
      (
        round_entry-Closes decoding dec e k.0 (
            subst (λ bad. round_entry as_new objcopy objdump decoding dec e ≡ ok (r.0, bad))
              none_here one),
        round_stage-Closes decoding dec es k.1 (
            subst (λ bad. round_stage as_new objcopy objdump decoding dec es ≡ ok (s.0, bad))
              none_later more),
      )

  -- What the stage `decode` leaves, whether it runs or not.
  Known-decoded :
      (runs : Bool) (es : List Entry) (r : List Bad × Decoded)
      → Ascending 1 es
      → (if runs then decode_stage as_new objcopy objdump es [] else ok ([], [])) ≡ ok r
      → r.0 ≡ []
      → All (Known runs r.1) es
  unfolding find
  Known-decoded true es r up h e =
      decode_stage-Found as_new objcopy objdump 1 es [] up
        (subst (λ bad. decode_stage as_new objcopy objdump es [] ≡ ok (bad, r.1)) e h)
  Known-decoded false es r up h e =
      subst (λ (p : List Bad × Decoded). All (Known false p.1) es) (ok-injective ([], []) r h)
        (nothing es)
    where
      nothing : (es : List Entry) → All (Known false []) es
      nothing [] = tt
      nothing (e ∷ es) = (refl, nothing es)

  Decodes-Found :
      (dec : Decoded) (es : List Entry)
      → All (Found as_new objcopy objdump dec) es
      → All (Decodes as_new objcopy objdump) es
  Decodes-Found dec [] k = tt
  Decodes-Found dec (e ∷ es) k = ((k.0.0, k.0.1), Decodes-Found dec es k.1)

  -- Each stage that was asked for has passed on every entry.
  pub record Passes (stages : List Text) (es : List Entry) : Type 0 where
    pub assembles :
        includes stages (codes "assemble") ≡ true → All (Assembles as_new objcopy objdump) es
    pub decodes_all :
        includes stages (codes "decode") ≡ true → All (Decodes as_new objcopy objdump) es
    pub closes : includes stages (codes "roundtrip") ≡ true → All (Closes as_new objcopy objdump) es

  abbrev rounds : Bool → Bool → Decoded → List Entry → Result Stop (ℕ × List Bad)
  rounds runs decoding dec es =
      if runs then round_stage as_new objcopy objdump decoding dec es else ok (0, [])

  Closes-rounds :
      (runs decoding : Bool) (dec : Decoded) (es : List Entry) (r : ℕ × List Bad)
      → All (Known decoding dec) es
      → rounds runs decoding dec es ≡ ok r
      → r.1 ≡ []
      → runs ≡ true
      → All (Closes as_new objcopy objdump) es
  Closes-rounds true decoding dec es r k h e _ =
      round_stage-Closes decoding dec es k
        (subst (λ bad. round_stage as_new objcopy objdump decoding dec es ≡ ok (r.0, bad)) e h)
  Closes-rounds false decoding dec es r k h e f = cc f

  Decodes-Known :
      (runs : Bool) (dec : Decoded) (es : List Entry)
      → All (Known runs dec) es
      → runs ≡ true
      → All (Decodes as_new objcopy objdump) es
  Decodes-Known true dec es k _ = Decodes-Found dec es k
  Decodes-Known false dec es k f = cc f

  Assembles-first :
      (runs : Bool) (es : List Entry)
      → (if runs then assemble_stage as_new objcopy objdump es else []) ≡ []
      → runs ≡ true
      → All (Assembles as_new objcopy objdump) es
  Assembles-first true es h _ = assemble_stage-nil as_new objcopy objdump es h
  Assembles-first false es h f = cc f

  run_stages-Passes :
      (stages : List Text) (es : List Entry)
      → Ascending 1 es
      → run_stages as_new objcopy objdump stages es ≡ ok 0
      → Passes stages es
  unfolding run_stages
  run_stages-Passes stages es up h =
      let decoding = includes stages (codes "decode") in
      let (r, one, later) =
        >>=-eq-ok (if decoding then decode_stage as_new objcopy objdump es [] else ok ([], [])) _
          h in
      let (s, two, same) =
        >>=-eq-ok (rounds (includes stages (codes "roundtrip")) decoding r.1 es) _ later in
      let first =
        if includes stages (codes "assemble")
        then assemble_stage as_new objcopy objdump es
        else [] in
      let zero_sum : length first + length r.0 + length s.1 ≡ 0 = ok-injective _ _ same in
      let known = Known-decoded decoding es r up one (length-zero r.0 (omega arith)) in
      record {
        assembles = Assembles-first _ es (length-zero first (omega arith));
        decodes_all = Decodes-Known decoding r.1 es known;
        closes = Closes-rounds _ decoding r.1 es s known two (length-zero s.1 (omega arith));
      }

  -- A run over a table that ends with no failure has read at least one entry, and each stage that it
  -- was asked for has passed on every entry: the source is assembled to the golden bytes; they are
  -- decoded to an instruction; and what is printed for it, with a branch that agrees with its target,
  -- is assembled to the golden bytes again.
  pub run_table-Passes :
      (stages : List Text) (lines : List Text)
      → run_table as_new objcopy objdump stages lines ≡ ok 0
      → (es : List Entry) × (read_table lines ≡ ok es) × (es ≢ []) × Passes stages es
  unfolding run_table
  run_table-Passes stages lines h = elim (Result-cases (read_table lines)) [
    | inr (e, is) ↦ cc (rw (is, run_table) at h)
    | inl ([], is) ↦ cc (rw (is, run_table) at h)
    | inl (e ∷ es, is) ↦ (
      e ∷ es,
      is,
      (λ n. cc n),
      run_stages-Passes stages (e ∷ es) (read_from-Ascending 1 lines (e ∷ es) is)
          (rw (is, run_table) at h),
    )
  ]

-- ===== src/Corpus/Main/Exit.antt =====
-- What the exit status 0 of tb/isa_check.py means.
use binutils_mcs.Base.{
  ℕ, ◌+◌, ◌≡◌, ◌≢◌, ◌⊎◌, ◌++◌, ◌||◌, ◌==◌, ==_iff, refl, ◌∙◌, ap, sym, Bool, true, false, Option,
  some, List, [], ◌∷◌, arith, if◌then◌else◌, ok, >>=-eq-ok, any, All, All-map, Bool-cases,
  Result-cases, inl, inr,
}
use mathlib.Core.Path.{subst}
use binutils_mcs.Base.Bytes.{Bytes, codes, equal, equal_iff}
use binutils_mcs.Base.Text.{Text, universal, split, onto_line}
use binutils_mcs.Hex.Payload.{Entry, read_table}
use binutils_mcs.Corpus.Disasm.{assemble}
use binutils_mcs.Corpus.Dialect.{translate}
use binutils_mcs.Corpus.Stages.Run.{Passes, run_table-Passes}
use binutils_mcs.Corpus.Main.{
  known_stages, nonempty, unknown, choose, checked_stages, is_given, run_program, table_failures,
  program_failures, main,
}

unknown-nil : (ss : List Text) → unknown ss ≡ [] → All (λ s. any (equal s) known_stages ≡ true) ss
unfolding unknown
unknown-nil [] h = tt
unknown-nil (s ∷ ss) h = elim (Bool-cases (any (equal s) known_stages)) [
  | inl is ↦ (is, unknown-nil ss (rw (is, unknown) at h))
  | inr not_one ↦ cc (rw (not_one, unknown) at h)
]

-- One of the three stages.
abbrev pub IsStage : Text → Type 0
IsStage s = (s ≡ codes "assemble") ⊎ (s ≡ codes "decode") ⊎ (s ≡ codes "roundtrip")

three_stages :
    (a b c : Bool) → a || (b || (c || false)) ≡ true → (a ≡ true) ⊎ (b ≡ true) ⊎ (c ≡ true)
three_stages true b c h = inl refl
three_stages false true c h = inr (inl refl)
three_stages false false true h = inr (inr refl)
three_stages false false false h = cc h

known-IsStage : (s : Text) → any (equal s) known_stages ≡ true → IsStage s
known-IsStage s h =
    elim (three_stages (equal s (codes "assemble")) (equal s (codes "decode"))
      (equal s (codes "roundtrip")) h) [
        | inl e ↦ inl ((equal_iff s (codes "assemble")).0 e)
        | inr (inl e) ↦ inr (inl ((equal_iff s (codes "decode")).0 e))
        | inr (inr e) ↦ inr (inr ((equal_iff s (codes "roundtrip")).0 e))
      ]

-- The parts with a comma between each two.
abbrev pub joined : List Text → Text
joined [] = []
joined (p ∷ []) = p
joined (p ∷ q ∷ ps) = p ++ 44 ∷ joined (q ∷ ps)

-- The parts that are not empty.
abbrev pub filled : List Text → List Text
filled [] = []
filled ([] ∷ ps) = filled ps
filled ((c ∷ p) ∷ ps) = (c ∷ p) ∷ filled ps

-- `stages` is what stands between the commas of `text`, without the empty parts.
pub record IsRequest (text : Text) (stages : List Text) : Type 0 where
  pub parts : List Text
  pub whole : joined parts ≡ text
  pub no_comma : All (All (λ c. c ≢ 44)) parts
  pub request : stages ≡ filled parts

nonempty-filled : (ps : List Text) → nonempty ps ≡ filled ps
unfolding nonempty
nonempty-filled [] = refl
nonempty-filled ([] ∷ ps) = nonempty-filled ps
nonempty-filled ((c ∷ p) ∷ ps) = ap (λ l. (c ∷ p) ∷ l) (nonempty-filled ps)

-- A text is not split into no part.
HasParts : Text → Type 0
HasParts s =
    (t : Text) × (ts : List Text) × (split b',' s ≡ t ∷ ts)
    × (joined (t ∷ ts) ≡ s)
    × All (All (λ c. c ≢ 44)) (t ∷ ts)

joined-onto : (c : ℕ) (t : Text) (ts : List Text) → joined ((c ∷ t) ∷ ts) ≡ c ∷ joined (t ∷ ts)
joined-onto c t [] = refl
joined-onto c t (u ∷ us) = refl

split-HasParts : (s : Text) → HasParts s
unfolding HasParts split
split-HasParts [] = ([], [], refl, refl, (tt, tt))
split-HasParts (c ∷ cs) =
    let (t, ts, is, whole, none_in) = split-HasParts cs in
    elim (Bool-cases (c == b',')) [
      | inl comma ↦ (
        [],
        t ∷ ts,
        rw (comma, split) (ap (λ l. [] ∷ l) is),
        cc (whole, (==_iff c b',').0 comma),
        (tt, none_in),
      )
      | inr other ↦ (
        c ∷ t,
        ts,
        rw (other, split) (ap (onto_line c) is),
        joined-onto c t ts ∙ ap (λ l. c ∷ l) whole,
        (((λ e. ground arith), none_in.0), none_in.1),
      )
    ]

split-IsRequest : (text : Text) → IsRequest text (nonempty (split b',' text))
unfolding HasParts
split-IsRequest text =
    let (t, ts, is, whole, none_in) = split-HasParts text in
    record {
      parts = t ∷ ts;
      whole = whole;
      no_comma = none_in;
      request = ap nonempty is ∙ nonempty-filled (t ∷ ts);
    }

-- Every stage that is asked for is one of the three, and with a table there is one.
pub record Chosen (has_table : Bool) (stages : List Text) : Type 0 where
  pub known : All IsStage stages
  pub some_stage : has_table ≡ true → stages ≢ []

choose-same :
    (stages : List Text) (has_table has_program : Bool) (chosen : List Text)
    → choose [] stages has_table has_program ≡ ok chosen
    → stages ≡ chosen
unfolding choose
choose-same stages t p chosen h = ground arith

choose-nil-true :
    (has_program : Bool) (chosen : List Text) → choose [] [] true has_program ≢ ok chosen
unfolding choose
choose-nil-true p chosen h = ground arith

choose-more :
    (u : Text) (us stages : List Text) (has_table has_program : Bool) (chosen : List Text)
    → choose (u ∷ us) stages has_table has_program ≢ ok chosen
unfolding choose
choose-more u us stages t p chosen h = cc

choose-Chosen :
    (us stages : List Text) (has_table has_program : Bool) (chosen : List Text)
    → unknown stages ≡ us
    → choose us stages has_table has_program ≡ ok chosen
    → Chosen has_table chosen
choose-Chosen (u ∷ us) stages t p chosen e h = absurd (choose-more u us stages t p chosen h)
choose-Chosen [] [] true p chosen e h = absurd (choose-nil-true p chosen h)
choose-Chosen [] [] false p chosen e h =
    subst (Chosen false) (choose-same [] false p chosen h)
      (record { known = tt; some_stage = λ f. cc f })
choose-Chosen [] (s ∷ ss) t p chosen e h =
    subst (Chosen t) (choose-same (s ∷ ss) t p chosen h) (record {
      known = All-map known-IsStage (s ∷ ss) (unknown-nil (s ∷ ss) e);
      some_stage = λ _ f. cc f;
    })

checked_stages-Chosen :
    (text : Text) (has_table has_program : Bool) (stages : List Text)
    → checked_stages text has_table has_program ≡ ok stages
    → Chosen has_table stages
unfolding checked_stages
checked_stages-Chosen text t p stages h =
    choose-Chosen (unknown (nonempty (split b',' text))) _ t p stages refl h

choose-IsRequest :
    (us all : List Text) (text : Text) (has_table has_program : Bool) (chosen : List Text)
    → IsRequest text all
    → choose us all has_table has_program ≡ ok chosen
    → IsRequest text chosen
choose-IsRequest (u ∷ us) all text t p chosen r h = absurd (choose-more u us all t p chosen h)
choose-IsRequest [] all text t p chosen r h =
    subst (IsRequest text) (choose-same all t p chosen h) r

checked_stages-IsRequest :
    (text : Text) (has_table has_program : Bool) (stages : List Text)
    → checked_stages text has_table has_program ≡ ok stages
    → IsRequest text stages
unfolding checked_stages
checked_stages-IsRequest text t p stages h =
    choose-IsRequest (unknown (nonempty (split b',' text))) (nonempty (split b',' text)) text t p
      stages (split-IsRequest text) h

module _ (as_new : Text → ℕ × (Text × Bytes)) (objcopy : Bytes → ℕ × (Text × Bytes))
    (objdump : Bytes → ℕ × (Text × Text)) where
  -- The text of the program, in the dialect that it is read in, is assembled.
  abbrev pub ProgramAssembles : Bool → Text → Type 0
  ProgramAssembles dialect text =
      (got : Bytes) × (assemble as_new objcopy objdump
          (if dialect then translate (universal text) else universal text)
        ≡ ok got)

  run_program-zero :
      (dialect : Bool) (text : Text)
      → run_program as_new objcopy objdump dialect text ≡ 0
      → ProgramAssembles dialect text
  unfolding run_program
  run_program-zero dialect text h =
      elim (Result-cases (
        assemble as_new objcopy objdump
          (if dialect then translate (universal text) else universal text))) [
            | inl (got, is) ↦ (got, is)
            | inr (why, is) ↦ absurd (omega (arith, rw (is, run_program) at h))
          ]

  -- In a run that ends with status 0 each part that is not empty between the commas of the request is one of assemble,
  -- decode and roundtrip, and these parts are the stages. A table that was given has an entry, there is a stage then,
  -- and all entries have passed every stage; and a program that was given is assembled.
  pub main-Passes :
      (text : Text) (table : Option (List Text)) (program : Option Text) (dialect : Bool)
      → main as_new objcopy objdump text table program dialect ≡ ok 0
      → (stages : List Text) × IsRequest text stages
        × Chosen (is_given table) stages
        × ((lines : List Text)
            → table ≡ some lines
            → (es : List Entry) × (read_table lines ≡ ok es)
              × (es ≢ [])
              × Passes as_new objcopy objdump stages es)
        × ((source : Text) → program ≡ some source → ProgramAssembles dialect source)
  unfolding main
  main-Passes text table program dialect h =
      let (stages, one, later) =
        >>=-eq-ok (checked_stages text (is_given table) (is_given program)) _ h in
      let (failures, two, same) =
        >>=-eq-ok (table_failures as_new objcopy objdump stages table) _ later in
      let clean : failures + program_failures as_new objcopy objdump dialect program ≡ 0 =
        ground (arith, same) in
      (
        stages,
        checked_stages-IsRequest text _ _ stages one,
        checked_stages-Chosen text _ _ stages one,
        (λ lines e. run_table-Passes as_new objcopy objdump stages lines (
            subst (λ o. table_failures as_new objcopy objdump stages o ≡ ok failures) e two
            ∙ ap ok (let z : failures ≡ 0 = omega arith in z))),
        (λ source e.
            run_program-zero dialect source
              (ap (program_failures as_new objcopy objdump dialect) (sym e) ∙ omega arith)),
      )

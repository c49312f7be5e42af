-- ===== src/Probes/Branch/Encoded.antt =====
-- What a run of the branch probe without a failure has seen.
use binutils_mcs.Base.{
  no_more, zero_status, ℕ, ◌≡◌, refl, ap, ◌∙◌, Bool, true, false, Option, none, some, List, [], ◌∷◌,
  ◌++◌, All, replicate, Option-cases, inl, inr, Result, ok, err, >>=-eq-ok,
}
use binutils_mcs.Base.Bytes.{Bytes, equal, equal_iff}
use binutils_mcs.Base.Text.{Text, from_hex}
use binutils_mcs.Probes.Run.{Stop}
use binutils_mcs.Probes.Branch.{Case, source_of, assemble, compare, passes, count_failed, exit_code}

module _ (Obj : Type 0) (as_new : Text → ℕ × (Text × Obj))
    (objcopy : Obj → ℕ × (Text × Bytes)) where
  -- A case with bytes is assembled to its padding, in zeros, and these bytes; one without is refused.
  abbrev pub IsEncoded : Case → Type 0
  IsEncoded c = elim c.want [
    | none ↦ (why : Text) × (assemble Obj as_new objcopy (source_of c) ≡ ok (err why))
    | some want ↦
        (bytes : Bytes) × (from_hex want ≡ some bytes)
        × (assemble Obj as_new objcopy (source_of c) ≡ ok (ok (replicate c.skip 0 ++ bytes)))
  ]

  refused :
      (got : Result Text Bytes)
      → ◌≡◌ {A = Result Stop Bool} (ok (elim got [ ok b ↦ false | err why ↦ true ])) (ok true)
      → (why : Text) × (got ≡ err why)
  refused (ok b) h = cc h
  refused (err why) h = (why, refl)

  compare-true :
      (pad : ℕ) (want : Text) (got : Result Text Bytes)
      → compare Obj as_new objcopy pad want got ≡ ok true
      → (bytes : Bytes) × (from_hex want ≡ some bytes) × (got ≡ ok (replicate pad 0 ++ bytes))
  unfolding compare
  compare-true pad want got h = elim (Option-cases (from_hex want)) [
    | inl bad ↦ cc (rw (bad, compare) at h)
    | inr (bytes, read) ↦ (bytes, read, same got bytes (rw (read, compare) at h))
  ]
    where
      same :
          (got : Result Text Bytes) (bytes : Bytes)
          → ◌≡◌ {A = Result Stop Bool}
              (elim got [ err why ↦ ok false | ok b ↦ ok (equal b (replicate pad 0 ++ bytes)) ])
              (ok true)
          → got ≡ ok (replicate pad 0 ++ bytes)
      same (ok b) bytes e = ap ok ((equal_iff b (replicate pad 0 ++ bytes)).0 (cc e))
      same (err why) bytes e = cc e

  case-IsEncoded :
      (name src : Text) (want : Option Text) (skip : ℕ)
      → passes Obj as_new objcopy (record { name = name; src = src; want = want; skip = skip })
        ≡ ok true
      → IsEncoded (record { name = name; src = src; want = want; skip = skip })
  unfolding passes
  case-IsEncoded name src none skip h =
      let (got, run, rest) =
        >>=-eq-ok
          (assemble Obj as_new objcopy
            (source_of (record { name = name; src = src; want = none; skip = skip })))
          _ h in
      let (why, is) = refused got rest in (why, run ∙ ap ok is)
  case-IsEncoded name src (some want) skip h =
      let (got, run, rest) =
        >>=-eq-ok
          (assemble Obj as_new objcopy
            (source_of (record { name = name; src = src; want = some want; skip = skip })))
          _ h in
      let (bytes, read, is) = compare-true skip want got rest in (bytes, read, run ∙ ap ok is)

  count_failed-zero :
      (cs : List Case) → count_failed Obj as_new objcopy cs ≡ ok 0 → All IsEncoded cs
  unfolding count_failed
  count_failed-zero [] h = tt
  count_failed-zero (c ∷ cs) h =
      let (good, run, rest) = >>=-eq-ok (passes Obj as_new objcopy c) _ h in
      let (n, runs, end) = >>=-eq-ok (count_failed Obj as_new objcopy cs) _ rest in
      let (is, none_left) = no_more good n (cc end) in
      (
        case-IsEncoded c.name c.src c.want c.skip (run ∙ ap ok is),
        count_failed-zero cs (runs ∙ ap ok none_left),
      )

  -- With exit status 0, each case of the table with bytes is assembled to as many zeros as its padding and these bytes, and
  -- each case without is refused by as-new.
  pub exit_code-IsEncoded :
      (table : List Case) → exit_code Obj as_new objcopy table ≡ ok 0 → All IsEncoded table
  unfolding exit_code
  exit_code-IsEncoded table h =
      let (bad, run, end) = >>=-eq-ok (count_failed Obj as_new objcopy table) _ h in
      count_failed-zero table (run ∙ ap ok (zero_status bad (cc end)))

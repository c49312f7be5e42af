-- ===== src/Mutation/Coverage/Kills.antt =====
-- The kill sets by stage of the report.
use binutils_mcs.Base.{
  ℕ, ◌≡◌, refl, sym, ap, ◌∙◌, Bool, true, false, ◌&&◌, ◌||◌, Option, none, some, List, [], ◌∷◌,
  ◌++◌, ◌==◌, if◌then◌else◌, length, Bool-cases, inl, inr,
}
use mathlib.Core.Path.{subst}
use mathlib.Core.List.{append-nil, append_assoc}
use binutils_mcs.Base.Bytes.{equal, equal_iff}
use binutils_mcs.Base.Text.{Text}
use binutils_mcs.Base.Dict.{Dict, put, get, member, get-put}
use binutils_mcs.Mutation.Coverage.Alone.{caught-fails, caught-alone}
use binutils_mcs.Mutation.Coverage.Scored.{
  Distinct, ids_of, fails, fails_nowhere_but, is_counted, caught,
}
use binutils_mcs.Mutation.Coverage.{
  Row, Results, is_red, red_at, Tables, ids_at, note_red, note_first, note_stages, note_row,
  note_rows, from_keys, scored_rows, red_sets, tables, blank,
}

added : Bool → Text → Text → Dict (List Text) → Dict (List Text)
added b s i d = if b then put s (ids_at s d ++ i ∷ []) d else d

ids_at-put :
    (s j : Text) (v : List Text) (d : Dict (List Text))
    → ids_at j (put s v d) ≡ (if equal j s then v else ids_at j d)
ids_at-put s j v d =
    ap (λ (o : Option (List Text)). elim o [ none ↦ [] | some ids ↦ ids ]) (get-put s j v d)
    ∙ elim (Bool-cases (equal j s)) [ inl same ↦ rw same refl | inr other ↦ rw other refl ]

ids_at-added :
    (b : Bool) (s j i : Text) (d : Dict (List Text))
    → ids_at j (added b s i d) ≡ ids_at j d ++ (if b && equal j s then i ∷ [] else [])
unfolding added
ids_at-added false s j i d = sym (append-nil (ids_at j d))
ids_at-added true s j i d =
    ids_at-put s j (ids_at s d ++ i ∷ []) d ∙ elim (Bool-cases (equal j s)) [
      | inl same ↦ rw (same, (equal_iff j s).0 same) refl
      | inr other ↦ rw other (sym (append-nil (ids_at j d)))
    ]

-- Tests of which the last fails, and of which it is so.
tests_false : (a b : Bool) {c : Bool} → c ≡ false → (a && (b && c)) ≡ false
tests_false true true h = h
tests_false true false h = refl
tests_false false b h = refl

tests_true : (a b : Bool) {c : Bool} → c ≡ true → (a && (b && c)) ≡ (b && a)
tests_true true true h = h
tests_true true false h = refl
tests_true false true h = refl
tests_true false false h = refl

neither : (a : Bool) {b : Bool} → a || b ≡ false → (a ≡ false) × (b ≡ false)
neither true h = cc
neither false h = (refl, h)

module _ (part : Tables → Dict (List Text)) (test : List Text → Bool)
    (part-note : (rset : List Text) (r : Row) (s : Text) (t : Tables)
      → part (note_red rset r s t) ≡ added (test rset) s r.id (part t))
    (part-first : (t : Tables) (d : Dict ℕ) → part (record t { first = d }) ≡ part t) where
  step :
      (rset : List Text) (r : Row) (s j : Text) (t : Tables)
      → ids_at j (part (if is_red r s then note_red rset r s t else t))
        ≡ ids_at j (part t) ++ (if is_red r s && (test rset && equal j s) then r.id ∷ [] else [])
  step rset r s j t = elim (Bool-cases (is_red r s)) [
    | inl red ↦
        rw red (ap (ids_at j) (part-note rset r s t) ∙ ids_at-added (test rset) s j r.id (part t))
    | inr green ↦ rw green (sym (append-nil (ids_at j (part t))))
  ]

  step_other :
      (rset : List Text) (r : Row) (s j : Text) (t : Tables)
      → equal j s ≡ false
      → ids_at j (part (if is_red r s then note_red rset r s t else t)) ≡ ids_at j (part t)
  step_other rset r s j t h =
      step rset r s j t
      ∙ ap (λ b. ids_at j (part t) ++ (if b then r.id ∷ [] else []))
          (tests_false (is_red r s) (test rset) h)
      ∙ append-nil (ids_at j (part t))

  step_same :
      (rset : List Text) (r : Row) (s j : Text) (t : Tables)
      → equal j s ≡ true
      → ids_at j (part (if is_red r s then note_red rset r s t else t))
        ≡ ids_at j (part t) ++ (if test rset && is_red r j then r.id ∷ [] else [])
  step_same rset r s j t h =
      step rset r s j t
      ∙ ap (λ b. ids_at j (part t) ++ (if b then r.id ∷ [] else []))
          (tests_true (is_red r s) (test rset) h
            ∙ ap (λ k. test rset && is_red r k) (sym ((equal_iff j s).0 h)))

  absent :
      (rset : List Text) (r : Row) (ss : List Text) (j : Text) (t : Tables)
      → member j ss ≡ false
      → ids_at j (part (note_stages rset r ss t)) ≡ ids_at j (part t)
  unfolding note_stages
  absent rset r [] j t h = refl
  absent rset r (s ∷ ss) j t h =
      let t' = if is_red r s then note_red rset r s t else t in
      let (other, later) = neither (equal j s) h in
      absent rset r ss j t' later ∙ step_other rset r s j t other

  present :
      (rset : List Text) (r : Row) (ss : List Text) (j : Text) (t : Tables)
      → Distinct ss
      → member j ss ≡ true
      → ids_at j (part (note_stages rset r ss t))
        ≡ ids_at j (part t) ++ (if test rset && is_red r j then r.id ∷ [] else [])
  unfolding note_stages
  present rset r [] j t d m = cc
  present rset r (s ∷ ss) j t d m =
      let t' = if is_red r s then note_red rset r s t else t in
      elim (Bool-cases (equal j s)) [
        | inl same ↦
            absent rset r ss j t'
              (subst (λ k. member k ss ≡ false) (sym ((equal_iff j s).0 same)) d.0)
            ∙ step_same rset r s j t same
        | inr other ↦
            present rset r ss j t' d.1 (rw other at m)
            ∙ ap (λ ids. ids ++ (if test rset && is_red r j then r.id ∷ [] else []))
                (step_other rset r s j t other)
      ]

  noted :
      (stages : List Text) (red : Dict (List Text)) (rs : List Row) (j : Text) (t : Tables)
      → Distinct stages
      → member j stages ≡ true
      → ids_at j (part (note_rows stages red rs t))
        ≡ ids_at j (part t) ++ caught (λ r. test (red_at red r) && is_red r j) rs
  unfolding note_rows note_row
  noted stages red [] j t d m = sym (append-nil (ids_at j (part t)))
  noted stages red (r ∷ rs) j t d m =
      let t' = note_row stages red r t in
      noted stages red rs j t' d m
      ∙ ap (λ ids. ids ++ caught (λ r. test (red_at red r) && is_red r j) rs)
          (ap (ids_at j) (
              part-first (note_stages (red_at red r) r stages t)
                (note_first (red_at red r) stages (note_stages (red_at red r) r stages t).first))
            ∙ present (red_at red r) r stages j t d m)
      ∙ append_assoc (ids_at j (part t))
          (if test (red_at red r) && is_red r j then r.id ∷ [] else [])
          (caught (λ r. test (red_at red r) && is_red r j) rs)

ids_at-from_keys :
    (j : Text) (ss : List Text) (d : Dict (List Text))
    → ids_at j d ≡ []
    → ids_at j (from_keys [] ss d) ≡ []
unfolding from_keys
ids_at-from_keys j [] d h = h
ids_at-from_keys j (s ∷ ss) d h = ids_at-from_keys j ss (put s [] d) (
    ids_at-put s j [] d
    ∙ rw h (elim (Bool-cases (equal j s)) [ inl same ↦ rw same refl | inr other ↦ rw other refl ]))

-- With stages and ids that are named once each: of a stage, `kills` has the ids of the rows that were killed or survived, have
-- an exit code for every stage, and have one that is not 0 for this, in their order; and `uniq` the ids of those
-- among them whose codes for all other stages are 0.
pub tables-caught :
    (d : Results) (s : Text)
    → Distinct d.stages
    → Distinct (ids_of d.rows)
    → member s d.stages ≡ true
    → (ids_at s (tables d).kills ≡ caught (λ r. is_counted d.stages r && fails r s) d.rows)
      × (ids_at s (tables d).uniq
          ≡ caught
              (λ r. is_counted d.stages r && (fails r s && fails_nowhere_but s d.stages r))
              d.rows)
unfolding tables note_red added get
tables-caught d s h ids m =
    let start = ids_at-from_keys s d.stages [] refl in
    let kills =
      noted (λ t. t.kills) (λ rset. true) (λ rset r s t. refl) (λ t d. refl) d.stages (red_sets d)
        (scored_rows d) s (blank d.stages) h m in
    let uniq =
      noted (λ t. t.uniq) (λ rset. length rset == 1) (λ rset r s t. refl) (λ t d. refl) d.stages
        (red_sets d) (scored_rows d) s (blank d.stages) h m in
    (
      kills
          ∙ ap (λ ids. ids ++ caught (λ r. is_red r s) (scored_rows d)) start
          ∙ caught-fails d.stages s d.rows,
      uniq
          ∙ ap
              (λ ids.
                ids
                ++ caught (λ r. (length (red_at (red_sets d) r) == 1) && is_red r s)
                    (scored_rows d))
              start
          ∙ caught-alone d.stages s d.rows h ids m,
    )

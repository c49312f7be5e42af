-- ===== src/Mutation/Run/Restore.antt =====
-- What a run over the mutants leaves in the source tree.
use binutils_mcs.Base.{
  ℕ, ◌≡◌, refl, ◌∙◌, sym, ap, Bool, true, Option, none, some, List, [], ◌∷◌, Bool-cases,
  Option-cases, inl, inr, All, map, ◌==◌,
}
use mathlib.Core.Path.{subst}
use binutils_mcs.Base.Bytes.{equal, equal_iff}
use binutils_mcs.Base.Text.{Text}
use binutils_mcs.Base.Dict.{member}
use binutils_mcs.Mutation.Run.{
  mark_of, rebuild_mark, unbuilt, Mutant, Files, Harness, write, flat, restore_one, apply,
  apply_text, measure, Report, run_mutant, run_mutants, report, stale,
}

-- The copy of the file in `pristine` is the file of `src`.
abbrev pub IsCopied : Files → Harness → Text → Type 0
IsCopied src h f = (text : Text) × (src f ≡ some text) × (h.pristine (flat f) ≡ some text)

-- The tree holds the sources `src`, and every saved file is copied.
pub record Holds (src : Files) (h : Harness) : Type 0 where
  pub clean : (f : Text) → h.tree f ≡ src f
  pub copies : All (IsCopied src h) h.saved

pub All-member :
    (P : Text → Type 0) (f : Text) (fs : List Text) → All P fs → member f fs ≡ true → P f
All-member P f [] h m = cc
All-member P f (g ∷ fs) h m = elim (Bool-cases (equal f g)) [
  | inl same ↦ subst P (sym ((equal_iff f g).0 same)) h.0
  | inr other ↦ All-member P f fs h.1 (rw other at m)
]

write_twice : (t : Files) (f a b g : Text) → t f ≡ some b → write (write t f a) f b g ≡ t g
unfolding write
write_twice t f a b g h = elim (Bool-cases (equal g f)) [
  | inl same ↦ rw (same) (sym h ∙ ap t (sym ((equal_iff g f).0 same)))
  | inr other ↦ rw other refl
]

apply-stale :
    (m : Mutant) (h : Harness) (text : Text)
    → h.tree m.file ≡ some text
    → apply_text m text ≡ none
    → apply m h ≡ some none
unfolding apply
apply-stale m h text e f = rw (e, apply) (rw (f, apply) refl)

abbrev pub with_tree : Harness → Files → Harness
with_tree h t = record { tree = t; pristine = h.pristine; saved = h.saved }

apply-some :
    (m : Mutant) (h : Harness) (text text' : Text)
    → h.tree m.file ≡ some text
    → apply_text m text ≡ some text'
    → apply m h ≡ some (some (with_tree h (write h.tree m.file text')))
unfolding apply
apply-some m h text text' e f = rw (e, apply) (rw (f, apply) refl)

pub restore_one-some :
    (rel : Text) (h : Harness) (text : Text)
    → member rel h.saved ≡ true
    → h.pristine (flat rel) ≡ some text
    → restore_one rel h ≡ some (with_tree h (write h.tree rel text))
unfolding restore_one
restore_one-some rel h text e f = rw e (rw (f, restore_one) refl)

module _ (World : Type 0) (make_rebuild : Files → World → World × (ℕ × Text))
    (make_stage : Text → Files → World → World × (ℕ × Text)) (every : Bool)
    (stages : List Text) where
  abbrev step : Mutant → Harness → World → Option (Report × (Harness × World))
  step = run_mutant World make_rebuild make_stage every stages

  measure-id :
      (m : Mutant) (t : Files) (w : World)
      → (measure World make_rebuild make_stage every stages m t w).0.id ≡ m.id
  unfolding measure
  measure-id m t w = elim (Bool-cases ((make_rebuild t w).1.0 == 0)) [
    | inr failed ↦ rw failed refl
    | inl built ↦
        rw built (elim (Bool-cases (unbuilt (mark_of rebuild_mark m.file) (make_rebuild t w).1.1)) [
          | inl missing ↦ rw missing refl
          | inr there ↦ rw there refl
        ])
  ]

  -- The run of one mutant ends, and the tree holds the sources again.
  run_mutant-Holds :
      (src : Files) (m : Mutant) (h : Harness) (w : World)
      → Holds src h
      → member m.file h.saved ≡ true
      → (r : Report) × (h' : Harness) × (w' : World) × (step m h w ≡ some (r, (h', w')))
        × Holds src h'
        × (h'.saved ≡ h.saved)
        × (r.id ≡ m.id)
  unfolding run_mutant
  run_mutant-Holds src m h w k s =
      let (text, here, copy) = All-member (IsCopied src h) m.file h.saved k.copies s in
      let there : h.tree m.file ≡ some text = k.clean m.file ∙ here in
      elim (Option-cases (apply_text m text)) [
        | inl is_stale ↦ (
          report m stale [],
          h,
          w,
          rw (apply-stale m h text there is_stale, run_mutant) refl,
          k,
          refl,
          refl,
        )
        | inr (mutated, changed) ↦
            let h₁ = with_tree h (write h.tree m.file mutated) in
            let measured = measure World make_rebuild make_stage every stages m h₁.tree w in
            (
              measured.0,
              with_tree h₁ (write h₁.tree m.file text),
              measured.1,
              rw (apply-some m h text mutated there changed, run_mutant)
                  (rw (restore_one-some m.file h₁ text s copy, run_mutant) refl),
              record {
                clean = λ f. write_twice h.tree m.file mutated text f there ∙ k.clean f;
                copies = k.copies;
              },
              refl,
              measure-id m h₁.tree w,
            )
      ]

  -- With a copy of each mutant's file, the run over the mutants goes to its end: there is a report
  -- with the id of each mutant, in their order, and the tree behind it is the one that it started from.
  pub run_mutants-Holds :
      (src : Files) (ms : List Mutant) (h : Harness) (w : World)
      → Holds src h
      → All (λ m. member m.file h.saved ≡ true) ms
      → (rs : List Report) × (h' : Harness) × (w' : World) × (run_mutants World make_rebuild
            make_stage every stages ms h w
          ≡ some (rs, (h', w')))
        × Holds src h'
        × (map (λ (r : Report). r.id) rs ≡ map (λ (m : Mutant). m.id) ms)
  unfolding run_mutants
  run_mutants-Holds src [] h w k s = ([], h, w, refl, k, refl)
  run_mutants-Holds src (m ∷ ms) h w k (s, ss) =
      let (r, h₁, w₁, one, k₁, same, same_id) = run_mutant-Holds src m h w k s in
      let (rs, h₂, w₂, more, k₂, n) =
        run_mutants-Holds src ms h₁ w₁ k₁
          (subst (λ l. All (λ m'. member m'.file l ≡ true) ms) (sym same) ss) in
      (r ∷ rs, h₂, w₂, rw (one, run_mutants) (rw (more, run_mutants) refl), k₂, cc (same_id, n))

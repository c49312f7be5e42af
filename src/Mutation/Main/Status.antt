-- ===== src/Mutation/Main/Status.antt =====
-- How a run of tb/mutation/run.py ends.
use binutils_mcs.Base.{
  ℕ, ◌≡◌, ◌≢◌, refl, sym, ◌∙◌, ap, Bool, true, false, ◌||◌, Option, none, some, List, [], ◌∷◌, map,
  arith, ◌==◌, ==_iff, Bool-cases, inl, inr, All,
}
use binutils_mcs.Base.Bytes.{equal, equal_iff}
use binutils_mcs.Base.Text.{Text, split, text_lt}
use binutils_mcs.Base.Dict.{member}
use binutils_mcs.Mutation.Run.{Mutant, Files, Harness, Report, gate, run_mutants}
use binutils_mcs.Mutation.Run.Restore.{Holds, run_mutants-Holds}
use binutils_mcs.Mutation.Main.{
  insert, sorted_set, files_of, chosen, selected, named, Ended, ended, red, shown_clean, baseline,
  finish, run_all, checked, main,
}
use binutils_mcs.Mutation.Main.Clean.{IsFile, DistinctFrom, save-Holds, restore_all-Holds}

All-insert : (P : Text → Type 0) (t : Text) (us : List Text) → P t → All P us → All P (insert t us)
unfolding insert
All-insert P t [] p k = (p, tt)
All-insert P t (u ∷ us) p k = elim (Bool-cases (equal t u)) [
  | inl same ↦ rw same k
  | inr other ↦ elim (Bool-cases (text_lt t u)) [
    | inl before ↦ rw (other, before) (p, k)
    | inr behind ↦ rw (other, behind) (k.0, All-insert P t us p k.1)
  ]
]

All-sorted_set : (P : Text → Type 0) (ts : List Text) → All P ts → All P (sorted_set ts)
unfolding sorted_set
All-sorted_set P [] k = tt
All-sorted_set P (t ∷ ts) k = All-insert P t (sorted_set ts) k.0 (All-sorted_set P ts k.1)

member-insert : (f t : Text) (us : List Text) → member f (insert t us) ≡ (equal f t || member f us)
unfolding insert
member-insert f t [] = refl
member-insert f t (u ∷ us) = elim (Bool-cases (equal t u)) [
  | inl same ↦ rw same (ground (arith, ap (equal f) ((equal_iff t u).0 same)))
  | inr other ↦ ground (arith, other, member-insert f t us)
]

member-sorted_set : (f : Text) (ts : List Text) → member f (sorted_set ts) ≡ member f ts
unfolding sorted_set
member-sorted_set f [] = refl
member-sorted_set f (t ∷ ts) =
    ground (arith, member-insert f t (sorted_set ts), member-sorted_set f ts)

-- The files of the mutants can be read.
abbrev pub AreFiles : Files → List Mutant → Type 0
AreFiles src = All (λ (m : Mutant). IsFile src m.file)

AreFiles-map :
    (src : Files) (ms : List Mutant)
    → AreFiles src ms
    → All (IsFile src) (map (λ (m : Mutant). m.file) ms)
AreFiles-map src [] k = tt
AreFiles-map src (m ∷ ms) k = (k.0, AreFiles-map src ms k.1)

AreFiles-chosen :
    (src : Files) (want : List Text) (ms : List Mutant)
    → AreFiles src ms
    → AreFiles src (chosen want ms)
unfolding chosen
AreFiles-chosen src want [] k = tt
AreFiles-chosen src want (m ∷ ms) k = elim (Bool-cases (member m.id want || member m.op want)) [
  | inl taken ↦ rw taken (k.0, AreFiles-chosen src want ms k.1)
  | inr left ↦ rw left (AreFiles-chosen src want ms k.1)
]

AreFiles-selected :
    (src : Files) (only : Text) (ms : List Mutant)
    → AreFiles src ms
    → AreFiles src (selected only ms)
AreFiles-selected src [] ms k = k
AreFiles-selected src (c ∷ cs) ms k = AreFiles-chosen src _ ms k

-- Every mutant's file is among those that are saved.
saved-All :
    (saved : List Text) (ms : List Mutant)
    → ((f : Text) → member f (map (λ (m : Mutant). m.file) ms) ≡ true → member f saved ≡ true)
    → All (λ (m : Mutant). member m.file saved ≡ true) ms
saved-All saved [] h = tt
saved-All saved (m ∷ ms) h = (
  h m.file (rw ((equal_iff m.file m.file).1 refl)),
  saved-All saved ms (λ f k. h f (ground (arith, k))),
)

module _ (World : Type 0) (make_rebuild : Files → World → World × (ℕ × Text))
    (make_stage : Text → Files → World → World × (ℕ × Text)) (stages : List Text) where
  -- A rebuild of the tree succeeds, and no stage of the gate is red behind it.
  abbrev pub ShownClean : Files → World → Type 0
  ShownClean t w =
      ((make_rebuild t w).1.0 ≡ 0)
      × ((gate World make_rebuild make_stage false stages t (make_rebuild t w).0).first ≡ none)

  red-zero : (o : Option Text) → red World make_rebuild make_stage 5 o ≡ 0 → o ≡ none
  red-zero none h = refl
  red-zero (some st) h = absurd (omega arith)

  shown_clean-zero :
      (t : Files) (w : World)
      → (shown_clean World make_rebuild make_stage 4 5 false stages t w).0 ≡ 0
      → ShownClean t w
  unfolding shown_clean
  shown_clean-zero t w h = elim (Bool-cases ((make_rebuild t w).1.0 == 0)) [
    | inr failed ↦ absurd (omega (arith, rw (failed, shown_clean) at h))
    | inl fine ↦
        ((==_iff (make_rebuild t w).1.0 0).0 fine, red-zero _ (rw (fine, shown_clean) at h))
  ]

  -- A report with the id of each mutant, in their order; and behind the last of them the tree that is left was rebuilt
  -- and every stage was green, and nothing came behind that.
  pub record Complete (every : Bool) (ms : List Mutant) (e : Ended World make_rebuild make_stage)
      : Type 0 where
    pub ids : map (λ (r : Report). r.id) e.reports ≡ map (λ (m : Mutant). m.id) ms
    pub start : Harness
    pub behind : Harness
    pub before : World
    pub left : World
    pub ran :
        run_mutants World make_rebuild make_stage every stages ms start before
        ≡ some (e.reports, (behind, left))
    pub same_tree : (f : Text) → e.tree f ≡ start.tree f
    pub clean : ShownClean e.tree left
    pub last :
        e.world
        ≡ (gate World make_rebuild make_stage false stages e.tree
            (make_rebuild e.tree left).0).world

  shown_clean-world :
      (t : Files) (w : World)
      → (make_rebuild t w).1.0 ≡ 0
      → (shown_clean World make_rebuild make_stage 4 5 false stages t w).1
        ≡ (gate World make_rebuild make_stage false stages t (make_rebuild t w).0).world
  unfolding shown_clean
  shown_clean-world t w h =
      let fine : ((make_rebuild t w).1.0 == 0) ≡ true = (==_iff (make_rebuild t w).1.0 0).1 h in
      rw (fine, shown_clean) refl

  -- How a run ends that has the tree `src` and is to report on the mutants `ms`.
  pub record EndsClean (src : Files) (every : Bool) (ms : List Mutant)
      (e : Ended World make_rebuild make_stage) : Type 0 where
    pub tree_kept : (f : Text) → e.tree f ≡ src f
    pub complete : e.status ≡ 0 → Complete every ms e

  finish-EndsClean :
      (src : Files) (every : Bool) (ms : List Mutant) (rs : List Report) (start h : Harness)
      (before w : World)
      → Holds src start
      → Holds src h
      → run_mutants World make_rebuild make_stage every stages ms start before ≡ some (rs, (h, w))
      → map (λ (r : Report). r.id) rs ≡ map (λ (m : Mutant). m.id) ms
      → (e : Ended World make_rebuild make_stage) × (finish World make_rebuild make_stage stages rs
            h w
          ≡ some e)
        × EndsClean src every ms e
  unfolding finish
  finish-EndsClean src every ms rs start h before w k₀ k ran ids =
      let (h', is, k', _) = restore_all-Holds src h k in
      (
        ended World make_rebuild make_stage
            (shown_clean World make_rebuild make_stage 4 5 false stages h'.tree w).0 rs h'.tree
            (shown_clean World make_rebuild make_stage 4 5 false stages h'.tree w).1,
        rw (is, finish) refl,
        record {
          tree_kept = k'.clean;
          complete = λ z.
              let clean = shown_clean-zero h'.tree w z in
              record {
                ids = ids;
                start = start;
                behind = h;
                before = before;
                left = w;
                ran = ran;
                same_tree = λ f. k'.clean f ∙ sym (k₀.clean f);
                clean = clean;
                last = shown_clean-world h'.tree w clean.0;
              };
        },
      )

  nonzero : (n : ℕ) → (n == 0) ≡ false → n ≢ 0
  nonzero n h e = ground arith

  run_all-EndsClean :
      (skip every : Bool) (ms : List Mutant) (src pristine : Files) (w : World)
      → AreFiles src ms
      → DistinctFrom [] (files_of ms)
      → (e : Ended World make_rebuild make_stage) × (run_all World make_rebuild make_stage skip
            every stages ms
            (record { tree = src; pristine = pristine; saved = [] })
            w
          ≡ some e)
        × EndsClean src every ms e
  unfolding run_all
  run_all-EndsClean skip every ms src pristine w files distinct =
      let (h₁, saved, k₁, members) =
        save-Holds src (files_of ms) (record { tree = src; pristine = pristine; saved = [] })
          (record { clean = λ f. refl; copies = tt })
          (All-sorted_set (IsFile src) _ (AreFiles-map src ms files)) distinct in
      let (h₂, restored, k₂, same) = restore_all-Holds src h₁ k₁ in
      let base = baseline World make_rebuild make_stage skip every stages h₂.tree w in
      elim (Bool-cases (base.0 == 0)) [
        | inr failed ↦ (
          ended World make_rebuild make_stage base.0 [] h₂.tree base.1,
          rw (saved, run_all) (rw (restored, failed, run_all) refl),
          record { tree_kept = k₂.clean; complete = λ z. absurd (nonzero base.0 failed z) },
        )
        | inl green ↦
            let held =
              saved-All h₂.saved ms
                (λ f m. ap (member f) same ∙ members f (member-sorted_set f _ ∙ m)) in
            let (rs, h₃, w₃, ran, k₃, ids) =
              run_mutants-Holds World make_rebuild make_stage every stages src ms h₂ base.1 k₂
                held in
            let (e, ends, clean) = finish-EndsClean src every ms rs h₂ h₃ base.1 w₃ k₂ k₃ ran ids in
            (e, rw (saved, run_all) (rw (restored, green, run_all) (rw (ran, run_all) ends)), clean)
      ]

module _ (World : Type 0) (make_rebuild : Files → World → World × (ℕ × Text))
    (make_stage : Text → Files → World → World × (ℕ × Text)) where
  checked-EndsClean :
      (skip every : Bool) (stages : List Text) (ms : List Mutant) (tree pristine : Files)
      (w : World)
      → AreFiles tree ms
      → DistinctFrom [] (files_of ms)
      → (e : Ended World make_rebuild make_stage) × (checked World make_rebuild make_stage skip
            every stages ms tree pristine w
          ≡ some e)
        × EndsClean World make_rebuild make_stage stages tree every ms e
  unfolding checked
  checked-EndsClean skip every [] ms tree pristine w files distinct = (
    ended World make_rebuild make_stage 2 [] tree w,
    refl,
    record { tree_kept = λ f. refl; complete = λ z. absurd (omega arith) },
  )
  checked-EndsClean skip every (s ∷ ss) [] tree pristine w files distinct = (
    ended World make_rebuild make_stage 2 [] tree w,
    refl,
    record { tree_kept = λ f. refl; complete = λ z. absurd (omega arith) },
  )
  checked-EndsClean skip every (s ∷ ss) (m ∷ ms) tree pristine w files distinct =
      run_all-EndsClean World make_rebuild make_stage (s ∷ ss) skip every (m ∷ ms) tree pristine w
        files distinct

  -- A run over mutants whose files can be read, and have names of their own in the directory of
  -- copies, comes to an end, with the tree as it was. If its status is 0 the ids of the reports are those of the
  -- mutants that were selected, in their order; and in the world that the last mutant left, the rebuild of that tree succeeded, with
  -- no stage of the gate red behind it, which is where the run ended.
  pub main-EndsClean :
      (stages_text only : Text) (skip every : Bool) (mutants : List Mutant) (tree pristine : Files)
      (w : World)
      → AreFiles tree mutants
      → DistinctFrom [] (files_of (selected only mutants))
      → (e : Ended World make_rebuild make_stage) × (main World make_rebuild make_stage stages_text
            only skip every mutants tree pristine w
          ≡ some e)
        × EndsClean World make_rebuild make_stage
            (named (split b',' stages_text))
            tree
            every
            (selected only mutants)
            e
  main-EndsClean stages_text only skip every mutants tree pristine w files distinct =
      unfold main in
      checked-EndsClean skip every (named (split b',' stages_text)) (selected only mutants) tree
        pristine w (AreFiles-selected tree only mutants files) distinct

-- ===== src/Mutation/Main.antt =====
-- `main` of tb/mutation/run.py: the arguments, the baseline, the loop over the mutants, and the proof that
-- the tree is left as it was found. `none` is an exception: a file that cannot be read or is not saved. The signal handlers,
-- what is printed and the file of results are left out.
pub mod Clean
pub mod Status
use binutils_mcs.Base.{
  ℕ, Bool, true, false, not, ◌||◌, Option, none, some, List, [], ◌∷◌, map, ◌==◌, if◌then◌else◌,
}
use binutils_mcs.Base.Bytes.{equal}
use binutils_mcs.Base.Text.{Text, split, rev_onto, text_lt}
use binutils_mcs.Base.Dict.{member}
use binutils_mcs.Mutation.Run.{Mutant, Files, Harness, save, restore_one, Report, gate, run_mutants}

-- `[s for s in args.stages.split(',') if s]`
unfoldable pub named : List Text → List Text
named [] = []
named (s ∷ ss) = if equal s [] then named ss else s ∷ named ss

-- The mutants that `--only` leaves; an empty text leaves them all.
unfoldable pub chosen : List Text → List Mutant → List Mutant
chosen want [] = []
chosen want (m ∷ ms) =
    if member m.id want || member m.op want then m ∷ chosen want ms else chosen want ms

abbrev pub selected : Text → List Mutant → List Mutant
selected [] ms = ms
selected (c ∷ cs) ms = chosen (split b',' (c ∷ cs)) ms

unfoldable pub insert : Text → List Text → List Text
unfolding text_lt
insert t [] = t ∷ []
insert t (u ∷ us) =
    if equal t u then u ∷ us else if text_lt t u then t ∷ u ∷ us else u ∷ insert t us

-- `sorted({…})`
unfoldable pub sorted_set : List Text → List Text
unfolding insert
sorted_set [] = []
sorted_set (t ∷ ts) = insert t (sorted_set ts)

abbrev pub files_of : List Mutant → List Text
files_of ms = sorted_set (map (λ (m : Mutant). m.file) ms)

-- The loop of `restore` over all that is saved.
unfoldable pub restore_files : List Text → Harness → Option Harness
restore_files [] h = some h
restore_files (rel ∷ rels) h = elim (restore_one rel h) [
  | none ↦ none
  | some h' ↦ restore_files rels h'
]

abbrev pub restore_all : Harness → Option Harness
restore_all h = restore_files (rev_onto [] h.saved) h

module _ (World : Type 0) (make_rebuild : Files → World → World × (ℕ × Text))
    (make_stage : Text → Files → World → World × (ℕ × Text)) where
  -- The exit status, the reports, and what the run leaves.
  pub record Ended : Type 0 where
    pub status : ℕ
    pub reports : List Report
    pub tree : Files
    pub world : World

  abbrev pub ended : ℕ → List Report → Files → World → Ended
  ended s rs t w = record { status = s; reports = rs; tree = t; world = w }

  abbrev red : ℕ → Option Text → ℕ
  red status none = 0
  red status (some stage) = status

  -- The rebuild and the gate of a tree: `unbuilt` where it does not build, `failing` where a stage is red, 0 else.
  unfoldable pub shown_clean : ℕ → ℕ → Bool → List Text → Files → World → ℕ × World
  shown_clean unbuilt failing every stages t w =
      let (w', (rc, log)) = make_rebuild t w in
      elim (rc == 0) [
        | false ↦ (unbuilt, w')
        | true ↦
            let g = gate World make_rebuild make_stage every stages t w' in
            (red failing g.first, g.world)
      ]

  -- The baseline, which `--skip-baseline` leaves out.
  abbrev pub baseline : Bool → Bool → List Text → Files → World → ℕ × World
  baseline true every stages t w = (0, w)
  baseline false every stages t w = shown_clean 2 3 every stages t w

  -- What follows the loop over the mutants.
  unfoldable pub finish : List Text → List Report → Harness → World → Option Ended
  unfolding restore_files shown_clean
  finish stages rs h w = elim (restore_all h) [
    | none ↦ none
    | some h' ↦
        let (status, w') = shown_clean 4 5 false stages h'.tree w in
        some (ended status rs h'.tree w')
  ]

  -- The run behind the checks of the arguments.
  unfoldable pub run_all : Bool → Bool → List Text → List Mutant → Harness → World → Option Ended
  unfolding save restore_files finish
  run_all skip every stages ms h w = elim (save (files_of ms) h) [
    | none ↦ none
    | some h₁ ↦ elim (restore_all h₁) [
      | none ↦ none
      | some h₂ ↦
          let (status, w') = baseline skip every stages h₂.tree w in
          elim (status == 0) [
            | false ↦ some (ended status [] h₂.tree w')
            | true ↦ elim (run_mutants World make_rebuild make_stage every stages ms h₂ w') [
              | none ↦ none
              | some (rs, (h₃, w'')) ↦ finish stages rs h₃ w''
            ]
          ]
    ]
  ]

  -- A run without a stage or without a mutant ends before it touches anything. `pristine` is what the
  -- working directory held before.
  unfoldable pub checked :
      Bool → Bool → List Text → List Mutant → Files → Files → World → Option Ended
  checked skip every [] ms tree pristine w = some (ended 2 [] tree w)
  checked skip every (s ∷ ss) [] tree pristine w = some (ended 2 [] tree w)
  checked skip every (s ∷ ss) (m ∷ ms) tree pristine w =
      run_all skip every (s ∷ ss) (m ∷ ms) (record { tree = tree; pristine = pristine; saved = [] })
        w

  unfoldable pub main :
      Text → Text → Bool → Bool → List Mutant → Files → Files → World → Option Ended
  unfolding checked named chosen
  main stages_text only skip every mutants tree pristine w =
      checked skip every (named (split b',' stages_text)) (selected only mutants) tree pristine w

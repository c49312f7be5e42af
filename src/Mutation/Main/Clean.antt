-- ===== src/Mutation/Main/Clean.antt =====
-- The tree behind a run of tb/mutation/run.py.
use binutils_mcs.Base.{
  ◌≡◌, ◌≢◌, refl, ◌∙◌, sym, ap, true, ◌||◌, some, List, [], ◌∷◌, arith, Bool-cases, inl, inr, All,
}
use binutils_mcs.Base.Bytes.{equal, equal_iff}
use binutils_mcs.Base.Text.{Text, rev_onto}
use binutils_mcs.Base.Dict.{member}
use binutils_mcs.Mutation.Run.{Files, Harness, write, flat, save}
use binutils_mcs.Mutation.Run.Restore.{IsCopied, Holds, All-member, with_tree, restore_one-some}
use binutils_mcs.Mutation.Main.{restore_files, restore_all}

write_same : (t : Files) (f a g : Text) → t f ≡ some a → write t f a g ≡ t g
unfolding write
write_same t f a g h = elim (Bool-cases (equal g f)) [
  | inl same ↦ rw same (sym h ∙ ap t (sym ((equal_iff g f).0 same)))
  | inr other ↦ rw other
]

write_other : (t : Files) (f a g : Text) → f ≢ g → write t f a g ≡ t g
unfolding write
write_other t f a g h = elim (Bool-cases (equal g f)) [
  | inl same ↦ absurd (h (sym ((equal_iff g f).0 same)))
  | inr other ↦ rw other
]

write_here : (t : Files) (f a : Text) → write t f a f ≡ some a
unfolding write
write_here t f a = rw ((equal_iff f f).1 refl)

-- The file can be read.
abbrev pub IsFile : Files → Text → Type 0
IsFile src f = (text : Text) × (src f ≡ some text)

-- No two files have the same name in `pristine`, and none the name of one that is saved.
abbrev pub Apart : Text → List Text → Type 0
Apart f = All (λ g. flat f ≢ flat g)

abbrev pub DistinctFrom : List Text → List Text → Type 0
DistinctFrom saved [] = Unit
DistinctFrom saved (f ∷ fs) = Apart f saved × DistinctFrom (f ∷ saved) fs

copies_kept :
    (src : Files) (h : Harness) (f text : Text) (fs : List Text)
    → Apart f fs
    → All (IsCopied src h) fs
    → All
        (IsCopied src (record {
          tree = h.tree;
          pristine = write h.pristine (flat f) text;
          saved = f ∷ h.saved;
        }))
        fs
copies_kept src h f text [] apart k = tt
copies_kept src h f text (g ∷ gs) apart k = (
  (k.0.0, k.0.1, write_other h.pristine (flat f) text (flat g) apart.0 ∙ k.0.2),
  copies_kept src h f text gs apart.1 k.1,
)

pub save-Holds :
    (src : Files) (fs : List Text) (h : Harness)
    → Holds src h
    → All (IsFile src) fs
    → DistinctFrom h.saved fs
    → (h' : Harness) × (save fs h ≡ some h')
      × Holds src h'
      × ((f : Text) → (member f h.saved || member f fs) ≡ true → member f h'.saved ≡ true)
unfolding save
save-Holds src [] h k files distinct = (h, refl, k, (λ f m. ground (arith, m)))
save-Holds src (f ∷ fs) h k ((text, at), files) (apart, distinct) =
    let h₁ : Harness = record {
      tree = h.tree;
      pristine = write h.pristine (flat f) text;
      saved = f ∷ h.saved;
    } in
    let k₁ : Holds src h₁ = record {
      clean = k.clean;
      copies = (
        (text, at, write_here h.pristine (flat f) text),
        copies_kept src h f text h.saved apart k.copies,
      );
    } in
    let (h', more, k', members) = save-Holds src fs h₁ k₁ files distinct in
    (h', rw (k.clean f ∙ at, save) more, k', (λ g m. members g (ground (arith, m))))

restore_files-Holds :
    (src : Files) (fs : List Text) (h : Harness)
    → Holds src h
    → All (λ f. member f h.saved ≡ true) fs
    → (h' : Harness) × (restore_files fs h ≡ some h') × Holds src h' × (h'.saved ≡ h.saved)
unfolding restore_files
restore_files-Holds src [] h k ms = (h, refl, k, refl)
restore_files-Holds src (f ∷ fs) h k (m, ms) =
    let (text, at, copy) = All-member (IsCopied src h) f h.saved k.copies m in
    let h₁ = with_tree h (write h.tree f text) in
    let k₁ : Holds src h₁ = record {
      clean = λ g. write_same h.tree f text g (k.clean f ∙ at) ∙ k.clean g;
      copies = k.copies;
    } in
    let (h', more, k', same) = restore_files-Holds src fs h₁ k₁ ms in
    (h', rw (restore_one-some f h text m copy, restore_files) more, k', same)

All-rev_onto :
    (P : Text → Type 0) (acc fs : List Text) → All P acc → All P fs → All P (rev_onto acc fs)
unfolding rev_onto
All-rev_onto P acc [] a k = a
All-rev_onto P acc (f ∷ fs) a k = All-rev_onto P (f ∷ acc) fs (k.0, a) k.1

All-own :
    (saved fs : List Text)
    → ((f : Text) → member f fs ≡ true → member f saved ≡ true)
    → All (λ f. member f saved ≡ true) fs
All-own saved [] h = tt
All-own saved (f ∷ fs) h =
    (h f (rw ((equal_iff f f).1 refl)), All-own saved fs (λ g m. h g (ground (arith, m))))

pub restore_all-Holds :
    (src : Files) (h : Harness)
    → Holds src h
    → (h' : Harness) × (restore_all h ≡ some h') × Holds src h' × (h'.saved ≡ h.saved)
restore_all-Holds src h k =
    restore_files-Holds src (rev_onto [] h.saved) h k (
      All-rev_onto (λ f. member f h.saved ≡ true) [] h.saved tt
        (All-own h.saved h.saved (λ f m. m)))

-- ===== src/Mutation/Mutants/Checked.antt =====
-- The last check of `main`, behind all operators and files.
use binutils_mcs.Base.{
  ◌≡◌, ◌≢◌, refl, sym, ◌∙◌, false, Option, none, List, [], ◌∷◌, All, Bool-cases, inl, inr,
}
use mathlib.Core.Path.{subst}
use binutils_mcs.Base.Bytes.{equal, equal_iff}
use binutils_mcs.Base.Int.{ℤ}
use binutils_mcs.Base.Text.{Text}
use binutils_mcs.Base.Dict.{member}
use binutils_mcs.Mutation.Run.{Mutant}
use binutils_mcs.Mutation.Mutants.{
  Operator, files, Generated, missing, duplicate, crashed, written, twice, check_ids, main,
}
use binutils_mcs.Mutation.Mutants.Unique.{Unique}
use binutils_mcs.Mutation.Mutants.Files.{AreNamed, AreKeys, IsSound, of_files-IsSound}

unseen :
    (m : Mutant) (seen : List Text) (ms : List Mutant)
    → All (λ (n : Mutant). m.id ≢ n.id) ms
    → All (λ (n : Mutant). member n.id seen ≡ false) ms
    → All (λ (n : Mutant). member n.id (m.id ∷ seen) ≡ false) ms
unseen m seen [] h k = tt
unseen m seen (n ∷ ms) (h, hs) (k, ks) = (
  elim (Bool-cases (equal n.id m.id)) [
    | inl same ↦ absurd (h (sym ((equal_iff n.id m.id).0 same)))
    | inr other ↦ rw other k
  ],
  unseen m seen ms hs ks,
)

twice-none :
    (seen : List Text) (ms : List Mutant)
    → Unique ms
    → All (λ (m : Mutant). member m.id seen ≡ false) ms
    → twice seen ms ≡ none
unfolding twice
twice-none seen [] h k = refl
twice-none seen (m ∷ ms) (new, h) (absent, k) =
    rw absent (twice-none (m.id ∷ seen) ms h (unseen m seen ms new k))

no_seen : (ms : List Mutant) → All (λ (m : Mutant). member m.id [] ≡ false) ms
no_seen [] = tt
no_seen (m ∷ ms) = (refl, no_seen ms)

check_ids-same : (g : Generated) → IsSound g → check_ids g ≡ g
check_ids-same (written ms) h = rw (twice-none [] ms h (no_seen ms), check_ids) refl
check_ids-same (missing rel) h = refl
check_ids-same (duplicate id) h = absurd h
check_ids-same crashed h = refl

pub unequal : (a b : Text) → equal a b ≡ false → a ≢ b
unequal a b h e = cc (sym ((equal_iff a b).1 e) ∙ h)

files-AreKeys : AreKeys files
files-AreKeys = (
  (
    (unequal _ _ refl, (unequal _ _ refl, (unequal _ _ refl, (unequal _ _ refl, tt)))),
    (
      (unequal _ _ refl, (unequal _ _ refl, (unequal _ _ refl, tt))),
      ((unequal _ _ refl, (unequal _ _ refl, tt)), ((unequal _ _ refl, tt), (tt, tt))),
    ),
  ),
  (
    (refl, (refl, (refl, tt))),
    (
      (refl, (refl, (refl, tt))),
      (
        (refl, (refl, (refl, tt))),
        ((refl, (refl, (refl, tt))), ((refl, (refl, (refl, (refl, tt)))), tt)),
      ),
    ),
  ),
)

-- `main` never refuses an id that is there twice, and the ids that it writes are all different, where the operators have
-- names of their own, without a dash.
pub main-IsSound :
    (only : Option (List Text)) (cap : ℤ) (ops : List Operator) (read : Text → Option (List Text))
    → AreNamed ops
    → IsSound (main only cap ops read)
unfolding main
main-IsSound only cap ops read names =
    let sound = of_files-IsSound only cap ops read files [] names files-AreKeys tt tt in
    subst IsSound (sym (check_ids-same _ sound)) sound

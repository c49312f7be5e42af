-- ===== src/Release/Assets/Sums.antt =====
-- Membership in what is appended, sorted and mapped.
use binutils_mcs.Base.{
  ◌≡◌, refl, ap, ◌∙◌, Bool, true, false, ◌||◌, List, [], ◌∷◌, ◌++◌, map, arith, Bool-cases, inl,
  inr,
}
use mathlib.Core.Path.{subst}
use binutils_mcs.Base.Bytes.{equal_refl, equal, equal_iff}
use binutils_mcs.Base.Text.{Text, text_lt}
use binutils_mcs.Base.Dict.{member}
use binutils_mcs.Release.Assets.{insert_sorted, sorted}

member-split : (n t : Text) (ts : List Text) → member n (t ∷ ts) ≡ (equal n t || member n ts)
member-split n t ts = refl

pub member-append :
    (n : Text) (xs ys : List Text) → member n (xs ++ ys) ≡ (member n xs || member n ys)
member-append n [] ys = refl
member-append n (x ∷ xs) ys = ground (arith, member-append n xs ys)

swapped : (a b c : Bool) → (a || (b || c)) ≡ (b || (a || c))
swapped true true c = refl
swapped true false c = refl
swapped false b c = refl

member-insert_sorted :
    (n t : Text) (us : List Text) → member n (insert_sorted t us) ≡ (equal n t || member n us)
unfolding insert_sorted
member-insert_sorted n t [] = refl
member-insert_sorted n t (u ∷ us) = elim (Bool-cases (text_lt u t)) [
  | inl less ↦
      rw (less, insert_sorted)
        (ap (λ b. equal n u || b) (member-insert_sorted n t us)
          ∙ swapped (equal n u) (equal n t) (member n us))
  | inr other ↦ rw (other, insert_sorted) refl
]

-- Sorting keeps the texts.
pub member-sorted : (n : Text) (ts : List Text) → member n (sorted ts) ≡ member n ts
unfolding sorted
member-sorted n [] = refl
member-sorted n (t ∷ ts) =
    member-insert_sorted n t (sorted ts) ∙ ap (λ b. equal n t || b) (member-sorted n ts)

-- The image of a text that is there.
pub member-map :
    (f : Text → Text) (n : Text) (ts : List Text)
    → member n ts ≡ true
    → member (f n) (map f ts) ≡ true
member-map f n [] h = cc h
member-map f n (t ∷ ts) h = elim (Bool-cases (equal n t)) [
  | inl same ↦
      subst (λ t'. (equal (f n) (f t') || member (f n) (map f ts)) ≡ true) ((equal_iff n t).0 same)
        (ap (λ b. b || member (f n) (map f ts)) (equal_refl (f n)))
  | inr other ↦ rw (member-map f n ts (rw other at h)) (or_true (equal (f n) (f t)))
]
  where
    or_true : (b : Bool) → (b || true) ≡ true
    or_true true = refl
    or_true false = refl

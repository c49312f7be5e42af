-- ===== src/Mutation/Generate/Masked.antt =====
-- What `mask_comments` changes.
use binutils_mcs.Base.{
  ◌≡◌, ◌⊎◌, inl, inr, refl, Bool, false, List, [], ◌∷◌, if◌then◌else◌, Bool-cases,
}
use binutils_mcs.Base.Bytes.{codes, starts_with}
use binutils_mcs.Base.Text.{Text}
use binutils_mcs.Mutation.Generate.{
  Mode, plain, block, closing, literal, within, behind_code, blanks, mask_line, mask_from,
  mask_comments,
}

-- A character of each stands where one of the other stands, and is the same or a blank.
abbrev pub IsMasked : Text → Text → Type 0
IsMasked [] [] = Unit
IsMasked (c ∷ s) (d ∷ t) = ((d ≡ c) ⊎ (d ≡ b' ')) × IsMasked s t
IsMasked _ _ = ⊥

abbrev pub AreMasked : List Text → List Text → Type 0
AreMasked [] [] = Unit
AreMasked (s ∷ ss) (t ∷ ts) = IsMasked s t × AreMasked ss ts
AreMasked _ _ = ⊥

blanks-IsMasked : (s : Text) → IsMasked s (blanks s)
blanks-IsMasked [] = tt
blanks-IsMasked (c ∷ s) = (inr refl, blanks-IsMasked s)

mask_line-IsMasked : (m : Mode) (s : Text) → IsMasked s (mask_line m s).0
unfolding mask_line
mask_line-IsMasked plain [] = tt
mask_line-IsMasked block [] = tt
mask_line-IsMasked closing [] = tt
mask_line-IsMasked (literal n) [] = tt
mask_line-IsMasked closing (c ∷ s) = (inr refl, mask_line-IsMasked plain s)
mask_line-IsMasked (literal n) (c ∷ s) = (inl refl, mask_line-IsMasked (within n) s)
mask_line-IsMasked block (c ∷ s) = elim (Bool-cases (starts_with (c ∷ s) (codes "*/"))) [
  | inl ends ↦ rw (ends, mask_line) (inr refl, mask_line-IsMasked closing s)
  | inr goes_on ↦ rw (goes_on, mask_line) (inr refl, mask_line-IsMasked block s)
]
mask_line-IsMasked plain (c ∷ s) = elim (Bool-cases (starts_with (c ∷ s) (codes "/*"))) [
  | inl opens ↦ rw (opens, mask_line) (inr refl, mask_line-IsMasked block s)
  | inr code ↦ elim (Bool-cases (starts_with (c ∷ s) (codes "//"))) [
    | inl line ↦ rw (code, line, mask_line) (blanks-IsMasked (c ∷ s))
    | inr other ↦ rw (code, other, mask_line) (inl refl, mask_line-IsMasked (behind_code c s) s)
  ]
]

mask_from-AreMasked : (b : Bool) (ss : List Text) → AreMasked ss (mask_from b ss)
unfolding mask_from
mask_from-AreMasked b [] = tt
mask_from-AreMasked b (s ∷ ss) = (
  mask_line-IsMasked (if b then block else plain) s,
  mask_from-AreMasked (mask_line (if b then block else plain) s).1 ss,
)

-- The masked lines are as many, each as long as its line, and differ from it in blanks alone: an offset into the one is
-- an offset into the other.
pub mask_comments-AreMasked : (ss : List Text) → AreMasked ss (mask_comments ss)
mask_comments-AreMasked ss = mask_from-AreMasked false ss

-- ===== src/Mutation/Generate/Code.antt =====
-- What `mask_comments` leaves alone.
use binutils_mcs.Base.{
  ℕ, zero, suc, ◌≡◌, refl, ap, Bool, true, false, ◌||◌, List, [], ◌∷◌, Bool-cases, inl, inr,
  Option-cases, All,
}
use binutils_mcs.Base.Bytes.{codes, starts_with}
use binutils_mcs.Base.Text.{Text, contains}
use binutils_mcs.Mutation.Generate.{
  Mode, plain, literal, within, literal_end, is_quote, behind_code, mask_line, mask_from,
  mask_comments,
}

-- A line in which no comment can begin.
abbrev pub HasNone : Text → Type 0
HasNone s = (contains (codes "/*") s ≡ false) × (contains (codes "//") s ≡ false)

neither : (a : Bool) {b : Bool} → a || b ≡ false → (a ≡ false) × (b ≡ false)
neither true h = cc
neither false h = (refl, h)

-- The modes outside of comments.
data IsCode : Mode → Type 0 where
  in_code : IsCode plain
  in_literal : (n : ℕ) → IsCode (literal n)

within-IsCode : (n : ℕ) → IsCode (within n)
within-IsCode zero = in_code
within-IsCode (suc n) = in_literal n

behind_code-IsCode : (c : ℕ) (s : Text) → IsCode (behind_code c s)
unfolding behind_code
behind_code-IsCode c s = elim (Bool-cases (is_quote c)) [
  | inr other ↦ rw (other, behind_code) in_code
  | inl quote ↦ elim (Option-cases (literal_end c s)) [
    | inl unclosed ↦ rw (quote, behind_code) (rw (unclosed, behind_code) in_code)
    | inr (n, is) ↦ rw (quote, behind_code) (rw (is, behind_code) (within-IsCode n))
  ]
]

mask_line-same : (m : Mode) (s : Text) → IsCode m → HasNone s → mask_line m s ≡ (s, false)
unfolding mask_line contains
mask_line-same _ [] in_code h = refl
mask_line-same _ [] (in_literal n) h = refl
mask_line-same _ (c ∷ s) (in_literal n) (a, b) =
    ap (λ (r : Text × Bool). (c ∷ r.0, r.1))
      (mask_line-same (within n) s (within-IsCode n) (
        (neither (starts_with (c ∷ s) (codes "/*")) a).1,
        (neither (starts_with (c ∷ s) (codes "//")) b).1,
      ))
mask_line-same _ (c ∷ s) in_code (a, b) =
    let (no_block, a') = neither (starts_with (c ∷ s) (codes "/*")) a in
    let (no_line, b') = neither (starts_with (c ∷ s) (codes "//")) b in
    rw (no_block, no_line, mask_line)
      (ap (λ (r : Text × Bool). (c ∷ r.0, r.1))
        (mask_line-same (behind_code c s) s (behind_code-IsCode c s) (a', b')))

-- Lines in which no comment begins are left as they are, their literals and quotes included.
pub mask_comments-same : (ss : List Text) → All HasNone ss → mask_comments ss ≡ ss
unfolding mask_from
mask_comments-same [] h = refl
mask_comments-same (s ∷ ss) (h, hs) =
    let same = mask_line-same plain s in_code h in
    rw (same, mask_from) (ap (λ rest. s ∷ rest) (mask_comments-same ss hs))

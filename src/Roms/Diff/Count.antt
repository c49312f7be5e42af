-- ===== src/Roms/Diff/Count.antt =====
-- What the outcome of a comparison says of the two ROMs.
use binutils_mcs.Base.{
  ℕ, zero, suc, ◌+◌, ◌<◌, ◌≤◌, max, ◌≡◌, ◌≢◌, refl, ap, Bool, true, false, Option, none, some, [],
  ◌∷◌, arith, ◌==◌, ==_iff, if◌then◌else◌, length, get_elem?, Bool-cases, inl, inr,
}
use binutils_mcs.Base.Bytes.{Bytes, codes, equal, equal_iff}
use binutils_mcs.Roms.Diff.{offsets, differing, outcome, compare_roms}

-- Whether two ROMs hold the same at an index, where either may have ended.
abbrev pub same_at : Option ℕ → Option ℕ → Bool
same_at none none = true
same_at (some a) (some b) = a == b
same_at _ _ = false

-- The number of the indices below `n` at which the ROMs do not hold the same.
pub differ_below : ℕ → Bytes → Bytes → ℕ
differ_below zero rb gb = 0
differ_below (suc n) rb gb =
    differ_below n rb gb + (if same_at (get_elem? rb n) (get_elem? gb n) then 0 else 1)

abbrev tail : Bytes → Bytes
tail [] = []
tail (b ∷ bs) = bs

get_elem?-tail : (bs : Bytes) (n : ℕ) → get_elem? (tail bs) n ≡ get_elem? bs (suc n)
get_elem?-tail [] n = refl
get_elem?-tail (b ∷ bs) n = refl

-- The index 0 first.
differ_below-suc :
    (n : ℕ) (rb gb : Bytes)
    → differ_below (suc n) rb gb
      ≡ (if same_at (get_elem? rb 0) (get_elem? gb 0) then 0 else 1)
        + differ_below n (tail rb) (tail gb)
unfolding differ_below
differ_below-suc zero rb gb = omega arith
differ_below-suc (suc n) rb gb =
    rw (get_elem?-tail rb n, get_elem?-tail gb n) (omega (arith, differ_below-suc n rb gb))

differ_below-left : (n : ℕ) (gb : Bytes) → length gb ≤ n → differ_below n [] gb ≡ length gb
differ_below-left zero [] h = unfold differ_below in refl
differ_below-left zero (g ∷ gb) h = absurd (omega arith)
differ_below-left (suc n) [] h =
    omega (arith, differ_below-suc n [] [], differ_below-left n [] (omega arith))
differ_below-left (suc n) (g ∷ gb) h =
    omega (arith, differ_below-suc n [] (g ∷ gb), differ_below-left n gb (omega arith))

differ_below-right : (n : ℕ) (rb : Bytes) → length rb ≤ n → differ_below n rb [] ≡ length rb
differ_below-right zero [] h = unfold differ_below in refl
differ_below-right zero (r ∷ rb) h = absurd (omega arith)
differ_below-right (suc n) [] h =
    omega (arith, differ_below-suc n [] [], differ_below-right n [] (omega arith))
differ_below-right (suc n) (r ∷ rb) h =
    omega (arith, differ_below-suc n (r ∷ rb) [], differ_below-right n rb (omega arith))

length-offsets : (i j : ℕ) (rb gb : Bytes) → length (offsets i rb gb) ≡ length (offsets j rb gb)
unfolding offsets
length-offsets i j [] gb = refl
length-offsets i j (r ∷ rb) [] = refl
length-offsets i j (r ∷ rb) (g ∷ gb) = elim (Bool-cases (r == g)) [
  | inl is ↦ rw is (length-offsets (i + 1) (j + 1) rb gb)
  | inr is ↦ rw is (ap suc (length-offsets (i + 1) (j + 1) rb gb))
]

differing-suc :
    (r g : ℕ) (rb gb : Bytes)
    → differing (r ∷ rb) (g ∷ gb) ≡ (if r == g then 0 else 1) + differing rb gb
unfolding differing
differing-suc r g rb gb = elim (Bool-cases (r == g)) [
  | inl is ↦ rw is (omega (arith, length-offsets 1 0 rb gb))
  | inr is ↦ rw is (omega (arith, length-offsets 1 0 rb gb))
]

differing-left : (gb : Bytes) → differing [] gb ≡ length gb
unfolding differing
differing-left gb = omega arith

differing-right : (rb : Bytes) → differing rb [] ≡ length rb
unfolding differing
differing-right [] = omega arith
differing-right (r ∷ rb) = omega arith

differing-below :
    (n : ℕ) (rb gb : Bytes) → length rb ≤ n → length gb ≤ n → differing rb gb ≡ differ_below n rb gb
differing-below n [] gb h k = omega (arith, differing-left gb, differ_below-left n gb k)
differing-below n (r ∷ rb) [] h k =
    omega (arith, differing-right (r ∷ rb), differ_below-right n (r ∷ rb) h)
differing-below zero (r ∷ rb) (g ∷ gb) h k = absurd (omega arith)
differing-below (suc n) (r ∷ rb) (g ∷ gb) h k = omega (
  arith,
  differing-suc r g rb gb,
  differ_below-suc n (r ∷ rb) (g ∷ gb),
  differing-below n rb gb (omega arith) (omega arith),
)

differing-zero : (rb gb : Bytes) → differing rb gb ≡ 0 → rb ≡ gb
differing-zero [] [] h = refl
differing-zero [] (g ∷ gb) h = absurd (omega (arith, differing-left (g ∷ gb)))
differing-zero (r ∷ rb) [] h = absurd (omega (arith, differing-right (r ∷ rb)))
differing-zero (r ∷ rb) (g ∷ gb) h =
    ground (arith, differing-suc r g rb gb, differing-zero rb gb, ==_iff r g)

not_equal : (rb gb : Bytes) → rb ≢ gb → equal rb gb ≡ false
not_equal rb gb other = elim (Bool-cases (equal rb gb)) [
  | inl same ↦ absurd (other ((equal_iff rb gb).0 same))
  | inr distinct ↦ distinct
]

-- What the outcome of two files is: `identical` with nothing differing exactly if they are the same,
-- else `differ` with the number of the indices at which one holds what the other does not, which
-- is not zero; and the size of the produced file.
pub compare_roms-Counts :
    (rb gb : Bytes)
    → (rb ≡ gb → compare_roms (some rb) (some gb) ≡ outcome (codes "identical") 0 (length gb))
      × (rb ≢ gb
          → (compare_roms (some rb) (some gb)
              ≡ outcome
                  (codes "differ")
                  (differ_below (max (length rb) (length gb)) rb gb)
                  (length gb))
            × (0 < differ_below (max (length rb) (length gb)) rb gb))
unfolding compare_roms
compare_roms-Counts rb gb =
    let d : differing rb gb ≡ differ_below (max (length rb) (length gb)) rb gb =
      differing-below (max (length rb) (length gb)) rb gb (omega arith) (omega arith) in
    (
      (λ same. rw ((equal_iff rb gb).1 same)),
      (λ other.
          let distinct : equal rb gb ≡ false = not_equal rb gb other in
          let positive : differing rb gb ≢ 0 = λ z. other (differing-zero rb gb z) in
          (rw distinct (ap (λ (n : ℕ). outcome (codes "differ") n (length gb)) d), omega arith)),
    )

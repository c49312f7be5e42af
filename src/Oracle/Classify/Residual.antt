-- ===== src/Oracle/Classify/Residual.antt =====
-- What is listed as residual.
use binutils_mcs.Base.{
  ℕ, suc, ◌+◌, ◌≡◌, ◌≢◌, refl, ◌∙◌, sym, ap, some, [], ◌∷◌, arith, ◌==◌, get_elem?, Bool-cases, inl,
  inr, All, All-append,
}
use binutils_mcs.Base.Bytes.{Bytes}
use binutils_mcs.Oracle.Classify.{
  Class, addr16, acall11, word16, pcode13, zero8, residual, Residue, Tally, none_yet, class_of,
  class_last, is_pair, tally, walk, classify,
}

-- The two bytes stand at that offset of the images, they differ, and the 2001 byte is no zero.
abbrev pub IsResidual : Bytes → Bytes → Residue → Type 0
IsResidual oracle produced (i, a, b) =
    (get_elem? oracle i ≡ some a) × (get_elem? produced i ≡ some b) × (a ≢ b) × (a ≢ 0)

module _ (oracle produced : Bytes) where
  abbrev Sound : Tally → Type 0
  Sound t = All (IsResidual oracle produced) t.residuals

  tally-Sound :
      (c : Class) (i a b : ℕ) (t : Tally)
      → (c ≡ residual → IsResidual oracle produced (i, a, b))
      → Sound t
      → Sound (tally c i a b t)
  unfolding tally
  tally-Sound addr16 i a b t h s = s
  tally-Sound acall11 i a b t h s = s
  tally-Sound word16 i a b t h s = s
  tally-Sound pcode13 i a b t h s = s
  tally-Sound zero8 i a b t h s = s
  tally-Sound residual i a b t h s =
      All-append (IsResidual oracle produced) t.residuals ((i, a, b) ∷ []) s (h refl, tt)

  -- `os` is what stands in `whole` from offset `i` on.
  abbrev From : ℕ → Bytes → Bytes → Type 0
  From i whole os = (j : ℕ) → get_elem? os j ≡ get_elem? whole (i + j)

  From-tail : (i a : ℕ) (whole os : Bytes) → From i whole (a ∷ os) → From (i + 1) whole os
  From-tail i a whole os h j = h (suc j) ∙ ap (get_elem? whole) (omega arith)

  From-head : (i a : ℕ) (whole os : Bytes) → From i whole (a ∷ os) → get_elem? whole i ≡ some a
  From-head i a whole os h = ap (get_elem? whole) (omega arith) ∙ sym (h 0)

  class_last-residual : (a : ℕ) → class_last a ≡ residual → a ≢ 0
  unfolding class_last
  class_last-residual a h = ground arith

  class_of-residual : (a a' b b' : ℕ) → class_of a a' b b' ≡ residual → a ≢ 0
  unfolding class_of
  class_of-residual a a' b b' h = ground arith

  walk-Sound :
      (i : ℕ) (os ps : Bytes) (t : Tally)
      → From i oracle os
      → From i produced ps
      → Sound t
      → Sound (walk i os ps t)
  unfolding walk
  walk-Sound i (a ∷ a' ∷ os) (b ∷ b' ∷ ps) t f g s = elim (Bool-cases (a == b)) [
    | inl same ↦
        rw (same, walk)
          (walk-Sound (i + 1) (a' ∷ os) (b' ∷ ps) t (From-tail i a oracle (a' ∷ os) f)
            (From-tail i b produced (b' ∷ ps) g) s)
    | inr differ ↦
        let c = class_of a a' b b' in
        let sound =
          tally-Sound c i a b t
            (λ r. (
              From-head i a oracle (a' ∷ os) f,
              From-head i b produced (b' ∷ ps) g,
              ground arith,
              class_of-residual a a' b b' r,
            ))
            s in
        let f' = From-tail i a oracle (a' ∷ os) f in
        let g' = From-tail i b produced (b' ∷ ps) g in
        elim (Bool-cases (is_pair c)) [
          | inl two ↦
              rw (differ, walk)
                (rw (two, walk)
                  (walk-Sound (i + 2) os ps _
                    (λ j. From-tail (i + 1) a' oracle os f' j ∙ ap (get_elem? oracle) (omega arith))
                    (λ j.
                      From-tail (i + 1) b' produced ps g' j ∙ ap (get_elem? produced) (omega arith))
                    sound))
          | inr one ↦
              rw (differ, walk)
                (rw (one, walk) (walk-Sound (i + 1) (a' ∷ os) (b' ∷ ps) _ f' g' sound))
        ]
  ]
  walk-Sound i (a ∷ []) (b ∷ ps) t f g s = elim (Bool-cases (a == b)) [
    | inl same ↦ rw same s
    | inr differ ↦ rw differ (
        tally-Sound (class_last a) i a b t
          (λ r. (
            From-head i a oracle [] f,
            From-head i b produced ps g,
            ground arith,
            class_last-residual a r,
          ))
          s)
  ]
  walk-Sound i (a ∷ a' ∷ os) (b ∷ []) t f g s = elim (Bool-cases (a == b)) [
    | inl same ↦ rw same s
    | inr differ ↦ rw differ (
        tally-Sound (class_last a) i a b t
          (λ r. (
            From-head i a oracle (a' ∷ os) f,
            From-head i b produced [] g,
            ground arith,
            class_last-residual a r,
          ))
          s)
  ]
  walk-Sound i [] ps t f g s = s
  walk-Sound i (a ∷ []) [] t f g s = s
  walk-Sound i (a ∷ a' ∷ os) [] t f g s = s

  -- Every residual entry names an offset at which the images differ, with the two bytes that stand
  -- there, and the 2001 byte is not zero.
  pub classify-IsResidual : All (IsResidual oracle produced) (classify oracle produced).residuals
  unfolding classify
  classify-IsResidual =
      walk-Sound 0 oracle produced none_yet (λ j. ap (get_elem? oracle) (omega arith))
        (λ j. ap (get_elem? produced) (omega arith)) tt

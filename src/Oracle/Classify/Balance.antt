-- ===== src/Oracle/Classify/Balance.antt =====
-- Every differing byte is accounted for.
use binutils_mcs.Base.{
  ℕ, ◌+◌, ◌*◌, ◌≤◌, ◌≡◌, false, [], ◌∷◌, arith, ◌==◌, if◌then◌else◌, length, length-append,
  Bool-cases, inl, inr,
}
use binutils_mcs.Base.Bytes.{Bytes}
use binutils_mcs.Oracle.Classify.{
  Class, addr16, acall11, word16, pcode13, zero8, residual, Tally, none_yet, class_of, class_last,
  is_pair, tally, walk, classify,
}

-- The offsets at which the shared part of two images differs.
abbrev pub diffs : Bytes → Bytes → ℕ
diffs (a ∷ os) (b ∷ ps) = (if a == b then 0 else 1) + diffs os ps
diffs _ _ = 0

abbrev pub pairs : Tally → ℕ
pairs t = t.addr16s + t.acall11s + t.word16s + t.pcode13s

abbrev pub singles : Tally → ℕ
singles t = t.zero8s + length t.residuals

pairs-tally :
    (c : Class) (i a b : ℕ) (t : Tally)
    → pairs (tally c i a b t) ≡ pairs t + (if is_pair c then 1 else 0)
unfolding tally
pairs-tally addr16 i a b t = omega arith
pairs-tally acall11 i a b t = omega arith
pairs-tally word16 i a b t = omega arith
pairs-tally pcode13 i a b t = omega arith
pairs-tally zero8 i a b t = omega arith
pairs-tally residual i a b t = omega arith

singles-tally :
    (c : Class) (i a b : ℕ) (t : Tally)
    → singles (tally c i a b t) ≡ singles t + (if is_pair c then 0 else 1)
unfolding tally
singles-tally addr16 i a b t = omega arith
singles-tally acall11 i a b t = omega arith
singles-tally word16 i a b t = omega arith
singles-tally pcode13 i a b t = omega arith
singles-tally zero8 i a b t = omega arith
singles-tally residual i a b t = omega (arith, length-append t.residuals ((i, a, b) ∷ []))

-- From `t` to `u` over images that differ at `n` offsets.
abbrev Accounts : ℕ → Tally → Tally → Type 0
Accounts n t u =
    (pairs u + singles u ≤ pairs t + singles t + n)
    × (n + 2 * pairs t + singles t ≤ 2 * pairs u + singles u)

class_last-single : (a : ℕ) → is_pair (class_last a) ≡ false
unfolding class_last
class_last-single a = ground arith

walk-Accounts : (i : ℕ) (os ps : Bytes) (t : Tally) → Accounts (diffs os ps) t (walk i os ps t)
unfolding walk
walk-Accounts i (a ∷ a' ∷ os) (b ∷ b' ∷ ps) t = elim (Bool-cases (a == b)) [
  | inl same ↦ rw (same, walk) (omega (arith, walk-Accounts (i + 1) (a' ∷ os) (b' ∷ ps) t))
  | inr differ ↦
      let u = tally (class_of a a' b b') i a b t in
      elim (Bool-cases (is_pair (class_of a a' b b'))) [
        | inl two ↦
            rw (differ, walk)
              (rw (two, walk)
                (ground (
                  arith,
                  walk-Accounts (i + 2) os ps u,
                  pairs-tally (class_of a a' b b') i a b t,
                  singles-tally (class_of a a' b b') i a b t,
                )))
        | inr one ↦
            rw (differ, walk)
              (rw (one, walk)
                (ground (
                  arith,
                  walk-Accounts (i + 1) (a' ∷ os) (b' ∷ ps) u,
                  pairs-tally (class_of a a' b b') i a b t,
                  singles-tally (class_of a a' b b') i a b t,
                )))
      ]
]
walk-Accounts i (a ∷ []) (b ∷ ps) t = ground (
  arith,
  pairs-tally (class_last a) i a b t,
  singles-tally (class_last a) i a b t,
  class_last-single a,
)
walk-Accounts i (a ∷ a' ∷ os) (b ∷ []) t = ground (
  arith,
  pairs-tally (class_last a) i a b t,
  singles-tally (class_last a) i a b t,
  class_last-single a,
)
walk-Accounts i [] ps t = omega arith
walk-Accounts i (a ∷ []) [] t = omega arith
walk-Accounts i (a ∷ a' ∷ os) [] t = omega arith

-- Each class but `zero8` and `residual` explains one or two of the differing bytes, these two
-- explain one, and together they explain all of them.
pub classify-diffs :
    (oracle produced : Bytes)
    → let t = classify oracle produced in
      (pairs t + singles t ≤ diffs oracle produced)
      × (diffs oracle produced ≤ 2 * pairs t + singles t)
unfolding classify
classify-diffs oracle produced = omega (arith, walk-Accounts 0 oracle produced none_yet)

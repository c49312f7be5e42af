-- ===== src/Watch/Releases/Fetch.antt =====
-- The attempts of a fetch.
use binutils_mcs.Base.{
  ℕ, zero, suc, ◌+◌, ◌≤◌, ◌<◌, ◌≡◌, refl, sym, ap, ◌∙◌, arith, Bool-cases, ltb, ltb→lt, ◌==◌,
  ==_iff, Option, none, some, Option-cases, inl, inr, ok, err,
}
use mathlib.Core.Option.{some-injective}
use binutils_mcs.Watch.Releases.{no_answer, attempts, http}

-- The first of the attempts that is answered.
abbrev pub First {ℓ} : {A : Type ℓ} → (ℕ → Option A) → ℕ → ℕ → A → Type ℓ
First fetch from k a = (fetch k ≡ some a) × ((j : ℕ) → from ≤ j → j < k → fetch j ≡ none)

later :
    {A : Type 0} (fetch : ℕ → Option A) (from k : ℕ) {a : A}
    → from ≤ k
    → fetch k ≡ some a
    → fetch from ≡ none
    → suc from ≤ k
later fetch from k h is failed = elim (Bool-cases (from == k)) [
  | inl equal ↦ cc (sym is ∙ ap fetch (sym ((==_iff from k).0 equal)) ∙ failed)
  | inr less ↦ ground (arith, less, h)
]

same :
    {A : Type 0} (fetch : ℕ → Option A) (from k : ℕ) {a b : A}
    → from ≤ k
    → fetch k ≡ some a
    → fetch from ≡ some b
    → ((j : ℕ) → from ≤ j → j < k → fetch j ≡ none)
    → b ≡ a
same fetch from k h is got before = elim (Bool-cases (ltb from k)) [
  | inl less ↦ cc (sym got ∙ before from (omega arith) (ltb→lt from k less))
  | inr not_less ↦
      let at : from ≡ k = ground (arith, not_less, h) in
      some-injective _ _ (sym got ∙ ap fetch at ∙ is)
]

attempts-First :
    {A : Type 0} (fetch : ℕ → Option A) (from left k : ℕ) (a : A)
    → from ≤ k
    → k < from + left
    → First fetch from k a
    → attempts fetch from left ≡ ok a
unfolding attempts
attempts-First fetch from zero k a h l f = absurd (omega arith)
attempts-First fetch from (suc left) k a h l (is, before) = elim (Option-cases (fetch from)) [
  | inl failed ↦
      rw (failed, attempts)
        (attempts-First fetch (suc from) left k a (later fetch from k h is failed) (omega arith)
          (is, λ j above below. before j (omega arith) below))
  | inr (b, got) ↦ rw (got, attempts) (ap ok (same fetch from k h is got before))
]

attempts-none :
    {A : Type 0} (fetch : ℕ → Option A) (from left : ℕ)
    → ((j : ℕ) → from ≤ j → j < from + left → fetch j ≡ none)
    → attempts fetch from left ≡ err no_answer
unfolding attempts
attempts-none fetch from zero h = refl
attempts-none fetch from (suc left) h =
    rw (h from (omega arith) (omega arith), attempts)
      (attempts-none fetch (suc from) left (λ j above below. h j (omega arith) (omega arith)))

-- A fetch gives what the first of the three attempts that is answered gives, and it fails if none of them is.
pub http-First :
    {A : Type 0} (fetch : ℕ → Option A)
    → ((k : ℕ) (a : A) → 1 ≤ k → k ≤ 3 → First fetch 1 k a → http fetch ≡ ok a)
      × (((j : ℕ) → 1 ≤ j → j ≤ 3 → fetch j ≡ none) → http fetch ≡ err no_answer)
http-First fetch = (
  (λ k a h l f. attempts-First fetch 1 3 k a h (omega arith) f),
  (λ h. attempts-none fetch 1 3 (λ j above below. h j above (omega arith))),
)

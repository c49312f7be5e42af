-- ===== src/Mutation/Mutants/Ranked.antt =====
-- The numbers within the lines, and what sampling leaves of them.
use binutils_mcs.Base.{
  get_elem?-lt, ℕ, zero, suc, ◌+◌, ◌*◌, ◌/◌, ◌≤◌, ◌<◌, ◌≡◌, refl, sym, ◌∙◌, ◌||◌, some, List, [],
  ◌∷◌, All, All-map, arith, leb, ◌==◌, length, get_elem?, get_elem?-All, Bool-cases, inl, inr,
}
use mathlib.Core.Path.{subst}
use mathlib.Core.Option.{some-injective}
use binutils_mcs.Base.Int.{ℤ, pos, negsuc}
use binutils_mcs.Mutation.Generate.{spread}
use binutils_mcs.Mutation.Generate.Spread.{spread-Spaced}
use binutils_mcs.Mutation.Mutants.{Match, Ranking, count, rank_from, total}

-- Each two elements are related, the earlier one first.
abbrev pub Pairwise : {A : Type 0} → (A → A → Type 0) → List A → Type 0
Pairwise R [] = Unit {0}
Pairwise R (x ∷ xs) = All (R x) xs × Pairwise R xs

-- Two matches are not the same one of the same line.
abbrev pub Apart : Ranking → Ranking → Type 0
Apart r s = r.line ≡ s.line → r.nth ≡ s.nth → ⊥

-- The number is one of those that the line has in all.
abbrev pub IsCounted : List Match → Ranking → Type 0
IsCounted ms r = (1 ≤ r.nth) × (r.nth ≤ total ms r.line)

rank_from-later :
    (seen : List ℕ) (ms : List Match)
    → All (λ (r : Ranking). count r.line seen < r.nth) (rank_from seen ms)
unfolding rank_from count
rank_from-later seen [] = tt
rank_from-later seen (m ∷ ms) = (
  omega arith,
  All-map (λ (r : Ranking) h. ground (arith, h)) (rank_from (m.line ∷ seen) ms)
      (rank_from-later (m.line ∷ seen) ms),
)

step : (seen : List ℕ) (l k nth : ℕ) → l ≡ k → count k (l ∷ seen) < nth → suc (count l seen) < nth
unfolding count
step seen l k nth same h =
    let back : count l (l ∷ seen) < nth = subst (λ j. count j (l ∷ seen) < nth) (sym same) h in
    ground (arith, back)

rank_from-Pairwise : (seen : List ℕ) (ms : List Match) → Pairwise Apart (rank_from seen ms)
unfolding rank_from count
rank_from-Pairwise seen [] = tt
rank_from-Pairwise seen (m ∷ ms) = (
  All-map {Q = Apart (record { line = m.line; new = m.new; nth = suc (count m.line seen) })}
      (λ (r : Ranking) h same nth.
        absurd (omega (arith, nth, step seen m.line r.line r.nth same h)))
      (rank_from (m.line ∷ seen) ms) (rank_from-later (m.line ∷ seen) ms),
  rank_from-Pairwise (m.line ∷ seen) ms,
)

rank_from-counted :
    (seen : List ℕ) (ms : List Match)
    → All
        (λ (r : Ranking). (1 ≤ r.nth) × (r.nth ≤ count r.line seen + total ms r.line))
        (rank_from seen ms)
unfolding rank_from count
rank_from-counted seen [] = tt
rank_from-counted seen (m ∷ ms) = (
  (omega arith, ground arith),
  All-map (λ (r : Ranking) h. (h.0, ground (arith, h.1))) (rank_from (m.line ∷ seen) ms)
      (rank_from-counted (m.line ∷ seen) ms),
)

-- The matches that are ranked are apart, and each has a number of its line.
pub rank_from-Apart :
    (ms : List Match) → Pairwise Apart (rank_from [] ms) × All (IsCounted ms) (rank_from [] ms)
unfolding count
rank_from-Apart ms = (
  rank_from-Pairwise [] ms,
  All-map {Q = IsCounted ms} (λ (r : Ranking) h. (h.0, omega (arith, h.1))) (rank_from [] ms)
      (rank_from-counted [] ms),
)

climbs :
    (f : ℕ → ℕ) (cap i j : ℕ) → ((k : ℕ) → k < cap → f k < f (suc k)) → i < j → j ≤ cap → f i < f j
climbs f cap i zero step l h = absurd (omega (arith, l))
climbs f cap i (suc j) step l h = elim (Bool-cases (i == j)) [
  | inl same ↦
      let at : i ≡ j = ground (arith, same) in
      subst (λ k. f k < f (suc j)) (sym at) (step j (omega (arith, h)))
  | inr other ↦
      let before = climbs f cap i j step (ground (arith, other, l)) (omega (arith, h)) in
      omega (arith, before, step j (omega (arith, h)))
]

module _ {A : Type 0} where
  Pairwise-at :
      (R : A → A → Type 0) (xs : List A) (i j : ℕ) {a b : A}
      → Pairwise R xs
      → i < j
      → get_elem? xs i ≡ some a
      → get_elem? xs j ≡ some b
      → R a b
  Pairwise-at R [] i j h l is at = cc is
  Pairwise-at R (x ∷ xs) zero zero h l is at = absurd (omega (arith, l))
  Pairwise-at R (x ∷ xs) (suc i) zero h l is at = absurd (omega (arith, l))
  Pairwise-at R (x ∷ xs) zero (suc j) {a} {b} (all, rest) l is at =
      subst (λ c. R c b) (some-injective x a is) (get_elem?-All (R x) xs j all at)
  Pairwise-at R (x ∷ xs) (suc i) (suc j) (all, rest) l is at =
      Pairwise-at R xs i j rest (omega (arith, l)) is at

  All-at :
      (P : A → Type 0) (xs : List A) → ((i : ℕ) (a : A) → get_elem? xs i ≡ some a → P a) → All P xs
  All-at P [] h = tt
  All-at P (x ∷ xs) h = (h 0 x refl, All-at P xs (λ i a. h (suc i) a))

  at-Pairwise :
      (R : A → A → Type 0) (xs : List A)
      → ((i j : ℕ) (a b : A) → i < j → get_elem? xs i ≡ some a → get_elem? xs j ≡ some b → R a b)
      → Pairwise R xs
  at-Pairwise R [] h = tt
  at-Pairwise R (x ∷ xs) h = (
    All-at (R x) xs (λ i a is. h 0 (suc i) x a (omega arith) refl is),
    at-Pairwise R xs (λ i j a b l. h (suc i) (suc j) a b (omega (arith, l))),
  )

  -- A sample keeps what holds of each element, and of each two.
  pub spread-Pairwise :
      (R : A → A → Type 0) (P : A → Type 0) (items : List A) (cap : ℤ) {out : List A}
      → spread items cap ≡ some out
      → Pairwise R items
      → All P items
      → Pairwise R out × All P out
  unfolding spread
  spread-Pairwise R P items (negsuc c) {out} h r p =
      subst (λ xs. Pairwise R xs × All P xs) (some-injective items out h) (r, p)
  spread-Pairwise R P items (pos cap) {out} h r p =
      elim (Bool-cases (cap == 0 || leb (length items) cap)) [
        | inl few ↦
            subst (λ xs. Pairwise R xs × All P xs)
              (some-injective items out (rw (few, spread) at h)) (r, p)
        | inr many ↦
            let (xs, run, size, picks) =
              spread-Spaced items cap (ground (arith, many)) (ground (arith, many)) in
            let same : xs ≡ out = some-injective xs out (sym run ∙ h) in
            let f : ℕ → ℕ = λ k. k * length items / cap in
            subst (λ xs. Pairwise R xs × All P xs) same
              (
                at-Pairwise R xs (λ i j a b l is at.
                    let low : i < cap = omega (arith, l, get_elem?-lt xs j at, size) in
                    let high : j < cap = omega (arith, get_elem?-lt xs j at, size) in
                    Pairwise-at R items (f i) (f j) r
                      (climbs f cap i j (λ k lt. (picks k lt).2) l (omega (arith, high)))
                      (sym (picks i low).0 ∙ is) (sym (picks j high).0 ∙ at)),
                All-at P xs (λ i a is.
                    get_elem?-All P items (f i) p
                      (sym (picks i (omega (arith, get_elem?-lt xs i is, size))).0 ∙ is)),
              )
      ]

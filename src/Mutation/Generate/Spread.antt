-- ===== src/Mutation/Generate/Spread.antt =====
-- The sample that `spread` takes.
use binutils_mcs.Base.{
  ℕ, zero, suc, ◌+◌, ◌*◌, ◌/◌, ◌≤◌, ◌<◌, ◌≡◌, refl, sym, ap, ◌∙◌, false, ◌||◌, some, List, [], ◌∷◌,
  arith, ◌==◌, leb, length, get_elem?, get_elem?-some,
}
use binutils_mcs.Base.Int.{pos}
use native.Mathlib.Nat.{le-div_iff_mul-le, div-lt_iff_lt-mul, div-mul-le_self, mul-le-mul_right}
use binutils_mcs.Mutation.Generate.{pick_from, spread}

sampled : (cap n : ℕ) → 0 < cap → cap < n → (cap == 0 || leb n cap) ≡ false
sampled cap n h l = ground (arith, h, l)

module _ {A : Type 0} (items : List A) (cap : ℕ) (some_cap : 0 < cap) where
  below : (k : ℕ) → k < cap → 0 < length items → k * length items / cap < length items
  below k h l = (div-lt_iff_lt-mul some_cap).1 (omega (arith, mul-le-mul_right (length items) h))

  rises : (k : ℕ) → cap ≤ length items → k * length items / cap < suc k * length items / cap
  rises k h =
      (le-div_iff_mul-le some_cap).1 (omega (arith, h, div-mul-le_self (k * length items) cap))

  picked :
      (k left : ℕ) (x : A) (xs : List A)
      → get_elem? items (k * length items / cap) ≡ some x
      → ((i : ℕ) → i < left → get_elem? xs i ≡ get_elem? items ((suc k + i) * length items / cap))
      → (i : ℕ) → i < suc left
      → get_elem? (x ∷ xs) i ≡ get_elem? items ((k + i) * length items / cap)
  picked k left x xs here picks zero lt =
      sym here ∙ ap (λ j. get_elem? items (j * length items / cap)) (omega arith)
  picked k left x xs here picks (suc i) lt =
      picks i (omega arith) ∙ ap (λ j. get_elem? items (j * length items / cap)) (omega arith)

  pick_from-picks :
      (k left : ℕ)
      → k + left ≤ cap
      → 0 < length items
      → (out : List A) × (pick_from items (length items) cap k left ≡ some out)
        × (length out ≡ left)
        × ((i : ℕ) → i < left → get_elem? out i ≡ get_elem? items ((k + i) * length items / cap))
  unfolding pick_from
  pick_from-picks k zero h l = ([], refl, refl, λ i lt. absurd (omega (arith, lt)))
  pick_from-picks k (suc left) h l =
      let (x, here) = get_elem?-some items (k * length items / cap) (below k (omega arith) l) in
      let (xs, run, size, picks) = pick_from-picks (suc k) left (omega arith) l in
      (
        x ∷ xs,
        rw (here, pick_from) (rw (run, pick_from) refl),
        ap suc size,
        λ i lt. picked k left x xs here picks i lt,
      )

-- With a cap above 0 and more items than that, there are as many items in the sample as the cap, those at
-- `k * n / cap` for each `k` below it, and these indices rise and are in range.
pub spread-Spaced :
    {A : Type 0} (items : List A) (cap : ℕ)
    → 0 < cap
    → cap < length items
    → (out : List A) × (spread items (pos cap) ≡ some out)
      × (length out ≡ cap)
      × ((k : ℕ)
          → k < cap
          → (get_elem? out k ≡ get_elem? items (k * length items / cap))
            × (k * length items / cap < length items)
            × (k * length items / cap < suc k * length items / cap))
unfolding spread
spread-Spaced items cap h l =
    let (out, run, size, picks) = pick_from-picks items cap h 0 cap (omega arith) (omega arith) in
    (
      out,
      rw (sampled cap (length items) h l) run,
      size,
      λ k lt. (
        picks k lt ∙ ap (λ j. get_elem? items (j * length items / cap)) (omega arith),
        below items cap h k lt (omega arith),
        rises items cap h k (omega arith),
      ),
    )

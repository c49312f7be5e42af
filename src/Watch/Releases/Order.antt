-- ===== src/Watch/Releases/Order.antt =====
-- The order of versions, and the newest of a list.
use binutils_mcs.Base.{
  ℕ, ◌≡◌, refl, sym, ap, Bool, true, false, List, [], ◌∷◌, arith, if◌then◌else◌, Bool-cases, inl,
  inr, All,
}
use mathlib.Core.Path.{subst}
use binutils_mcs.Base.Text.{Text}
use binutils_mcs.Watch.Releases.{vtuple, tuple_lt, newest_from}

tuple_lt_irrefl : (a : List ℕ) → tuple_lt a a ≡ false
unfolding tuple_lt
tuple_lt_irrefl [] = refl
tuple_lt_irrefl (x ∷ a) = ground (arith, tuple_lt_irrefl a)

-- Of two versions that are not newer, one behind the other, the last is not newer either.
pub tuple_lt_trans :
    (a b c : List ℕ) → tuple_lt a b ≡ false → tuple_lt b c ≡ false → tuple_lt a c ≡ false
unfolding tuple_lt
tuple_lt_trans a b [] h k = refl
tuple_lt_trans a [] (z ∷ c) h k = cc
tuple_lt_trans [] (y ∷ b) (z ∷ c) h k = cc
tuple_lt_trans (x ∷ a) (y ∷ b) (z ∷ c) h k = ground (arith, h, k, tuple_lt_trans a b c)

tuple_lt_asymm : (a b : List ℕ) → tuple_lt a b ≡ true → tuple_lt b a ≡ false
unfolding tuple_lt
tuple_lt_asymm a [] h = cc
tuple_lt_asymm [] (y ∷ b) h = refl
tuple_lt_asymm (x ∷ a) (y ∷ b) h = ground (arith, h, tuple_lt_asymm a b)

-- `v` is not newer than `u`.
abbrev pub AtLeast : Text → Text → Type 0
AtLeast u v = tuple_lt (vtuple u) (vtuple v) ≡ false

pub AtLeast-trans : (u v w : Text) → AtLeast u v → AtLeast v w → AtLeast u w
AtLeast-trans u v w = tuple_lt_trans (vtuple u) (vtuple v) (vtuple w)

-- None of a list is newer than `m`.
abbrev pub IsNewest : Text → List Text → Type 0
IsNewest m vs = All (AtLeast m) vs

newest_from-step :
    (best v : Text) (vs : List Text) {b : Bool}
    → tuple_lt (vtuple best) (vtuple v) ≡ b
    → newest_from best (v ∷ vs) ≡ newest_from (if b then v else best) vs
unfolding newest_from
newest_from-step best v vs h = ap (λ b. newest_from (if b then v else best) vs) h

pub newest_from-IsNewest :
    (best : Text) (vs : List Text) → IsNewest (newest_from best vs) (best ∷ vs)
newest_from-IsNewest best [] = unfold newest_from in (tuple_lt_irrefl (vtuple best), tt)
newest_from-IsNewest best (v ∷ vs) = elim (Bool-cases (tuple_lt (vtuple best) (vtuple v))) [
  | inl newer ↦
      let (a, all) = newest_from-IsNewest v vs in
      subst (λ m. IsNewest m (best ∷ v ∷ vs)) (sym (newest_from-step best v vs newer))
        (
          AtLeast-trans (newest_from v vs) v best a (tuple_lt_asymm (vtuple best) (vtuple v) newer),
          (a, all),
        )
  | inr older ↦
      let (a, all) = newest_from-IsNewest best vs in
      subst (λ m. IsNewest m (best ∷ v ∷ vs)) (sym (newest_from-step best v vs older))
        (a, (AtLeast-trans (newest_from best vs) best v a older, all))
]

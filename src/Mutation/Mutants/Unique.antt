-- ===== src/Mutation/Mutants/Unique.antt =====
-- The ids of the mutants that are generated.
use binutils_mcs.Base.{
  ◌+◌, ◌≡◌, ◌≢◌, refl, some, List, [], ◌∷◌, ◌++◌, All, All-map, All-append, length, get_elem?,
  Bool-cases, Option-cases, inl, inr,
}
use mathlib.Core.Path.{subst}
use mathlib.Core.Option.{some-injective}
use binutils_mcs.Base.Bytes.{slice}
use binutils_mcs.Base.Int.{ℤ}
use binutils_mcs.Base.Text.{Text}
use binutils_mcs.Mutation.Run.{Mutant, lines_equal}
use binutils_mcs.Mutation.Generate.{spread}
use binutils_mcs.Mutation.Mutants.{Match, Ranking, rank_from, id_of, name_all, of_operator}
use binutils_mcs.Mutation.Mutants.Ranked.{
  Pairwise, Apart, IsCounted, rank_from-Apart, spread-Pairwise,
}
use binutils_mcs.Mutation.Mutants.Ids.{id_of-inj}

-- No id is there twice.
abbrev pub Unique : List Mutant → Type 0
Unique ms = Pairwise (λ (m n : Mutant). m.id ≢ n.id) ms

name_all-All :
    (P : Text → Type 0) (key rel name : Text) (lines : List Text) (ms : List Match)
    (rs : List Ranking) {out : List Mutant}
    → name_all key rel name lines ms rs ≡ some out
    → All (λ r. P (id_of key name ms r)) rs
    → All (λ (m : Mutant). P m.id) out
unfolding name_all
name_all-All P key rel name lines ms [] h all =
    subst (All (λ (m : Mutant). P m.id)) (some-injective _ _ h) tt
name_all-All P key rel name lines ms (r ∷ rs) h (here, all) =
    elim (Option-cases (get_elem? lines r.line)) [
      | inl absent ↦ cc (rw (absent, name_all) at h)
      | inr (old, is) ↦ elim (Option-cases (name_all key rel name lines ms rs)) [
        | inl failed ↦ cc (rw (failed, name_all) at (rw (is, name_all) at h))
        | inr (rest, run) ↦
            let later = name_all-All P key rel name lines ms rs run all in
            let found = rw (run, name_all) at (rw (is, name_all) at h) in
            elim (Bool-cases (lines_equal (slice lines r.line (r.line + length r.new)) r.new)) [
              | inl same ↦
                  subst (All (λ (m : Mutant). P m.id)) (some-injective _ _ (rw same at found)) later
              | inr other ↦
                  subst (All (λ (m : Mutant). P m.id)) (some-injective _ _ (rw other at found))
                    (here, later)
            ]
      ]
    ]

name_all-Unique :
    (key rel name : Text) (lines : List Text) (ms : List Match) (rs : List Ranking)
    {out : List Mutant}
    → name_all key rel name lines ms rs ≡ some out
    → Pairwise Apart rs
    → All (IsCounted ms) rs
    → Unique out
unfolding name_all
name_all-Unique key rel name lines ms [] h apart counted = subst Unique (some-injective _ _ h) tt
name_all-Unique key rel name lines ms (r ∷ rs) h (here, apart) (one, counted) =
    elim (Option-cases (get_elem? lines r.line)) [
      | inl absent ↦ cc (rw (absent, name_all) at h)
      | inr (old, is) ↦ elim (Option-cases (name_all key rel name lines ms rs)) [
        | inl failed ↦ cc (rw (failed, name_all) at (rw (is, name_all) at h))
        | inr (rest, run) ↦
            let later = name_all-Unique key rel name lines ms rs run apart counted in
            let new =
              name_all-All (λ id. id_of key name ms r ≢ id) key rel name lines ms rs run
                (differ key name ms r rs here one counted) in
            let found = rw (run, name_all) at (rw (is, name_all) at h) in
            elim (Bool-cases (lines_equal (slice lines r.line (r.line + length r.new)) r.new)) [
              | inl same ↦ subst Unique (some-injective _ _ (rw same at found)) later
              | inr other ↦ subst Unique (some-injective _ _ (rw other at found)) (new, later)
            ]
      ]
    ]
  where
    differ :
        (key name : Text) (ms : List Match) (r : Ranking) (rs : List Ranking)
        → All (Apart r) rs
        → IsCounted ms r
        → All (IsCounted ms) rs
        → All (λ s. id_of key name ms r ≢ id_of key name ms s) rs
    differ key name ms r [] here one counted = tt
    differ key name ms r (s ∷ rs) (apart, here) one (two, counted) = (
      (λ e. let (line, nth) = id_of-inj key name ms r s one two e in apart line nth),
      differ key name ms r rs here one counted,
    )

-- The id begins with the key of the file and the name of the operator.
abbrev pub HasName : Text → Text → Text → Type 0
HasName key name id = (s : Text) × (id ≡ key ++ (b'-' ∷ (name ++ (b'-' ∷ s))))

pub of_operator-Unique :
    (key rel name : Text) (lines : List Text) (cap : ℤ) (ms : List Match) {out : List Mutant}
    → of_operator key rel name lines cap ms ≡ some out
    → Unique out × All (λ (m : Mutant). HasName key name m.id) out
unfolding of_operator
of_operator-Unique key rel name lines cap ms h =
    elim (Option-cases (spread (rank_from [] ms) cap)) [
      | inl failed ↦ cc (rw (failed, of_operator) at h)
      | inr (sample, is) ↦
          let found = rw (is, of_operator) at h in
          let (apart, counted) = rank_from-Apart ms in
          let (apart', counted') =
            spread-Pairwise Apart (IsCounted ms) (rank_from [] ms) cap is apart counted in
          (
            name_all-Unique key rel name lines ms sample found apart' counted',
            name_all-All (HasName key name) key rel name lines ms sample found
                (All-map (λ r c. (_, refl)) sample counted'),
          )
    ]

pub Pairwise-append :
    {A : Type 0} (R : A → A → Type 0) (xs ys : List A)
    → Pairwise R xs
    → Pairwise R ys
    → All (λ x. All (R x) ys) xs
    → Pairwise R (xs ++ ys)
Pairwise-append R [] ys h k cross = k
Pairwise-append R (x ∷ xs) ys (here, h) k (first, cross) =
    (All-append (R x) xs ys here first, Pairwise-append R xs ys h k cross)

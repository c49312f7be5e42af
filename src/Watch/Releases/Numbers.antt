-- ===== src/Watch/Releases/Numbers.antt =====
-- A version read as the numbers between its dots, and the order of such lists by the first place where they differ.
use binutils_mcs.Base.{
  ℕ, ◌+◌, ◌-◌, ◌*◌, ◌<◌, ◌≡◌, ◌⊎◌, refl, sym, ap, ◌∙◌, true, false, List, [], ◌∷◌, ◌++◌, map, ◌==◌,
  arith, if◌then◌else◌, Bool-cases, inl, inr,
}
use binutils_mcs.Base.Text.{Text, split, onto_line}
use binutils_mcs.Base.Scan.{digits_value}
use binutils_mcs.Watch.Releases.{vtuple, tuple_lt}

-- The numbers of a version, read in one pass: `n` is what the digits since the last dot stand for.
abbrev pub numbers_from : ℕ → Text → List ℕ
numbers_from n [] = n ∷ []
numbers_from n (c ∷ cs) =
    if c == 46 then n ∷ numbers_from 0 cs else numbers_from (n * 10 + (c - 48)) cs

abbrev pub numbers : Text → List ℕ
numbers v = numbers_from 0 v

-- `a` comes to its end inside `b`, or is below it at the first place where they differ.
abbrev pub Precedes : List ℕ → List ℕ → Type 0
Precedes a b =
    (p : List ℕ) × (y : ℕ) × (s : List ℕ) × (b ≡ p ++ y ∷ s)
    × ((a ≡ p) ⊎ ((x : ℕ) × (r : List ℕ) × (a ≡ p ++ x ∷ r) × (x < y)))

-- Version `v` is newer than `u`.
abbrev pub IsNewer : Text → Text → Type 0
IsNewer u v = Precedes (numbers u) (numbers v)

IsRead : ℕ → Text → Type 0
IsRead sep s =
    (t : Text) × (ts : List Text) × (split sep s ≡ t ∷ ts)
    × ((n : ℕ) → numbers_from n s ≡ digits_value n t ∷ map (digits_value 0) ts)

split-IsRead : (s : Text) → IsRead 46 s
unfolding IsRead split digits_value
split-IsRead [] = ([], [], refl, λ n. refl)
split-IsRead (c ∷ cs) =
    let (t, ts, is, read) = split-IsRead cs in
    elim (Bool-cases (c == 46)) [
      | inl dot ↦ (
        [],
        t ∷ ts,
        rw (dot, split) (ap (λ l. [] ∷ l) is),
        λ n. rw dot (ap (λ l. n ∷ l) (read 0)),
      )
      | inr digit ↦ (
        c ∷ t,
        ts,
        rw (digit, split) (ap (onto_line c) is),
        λ n. rw digit (read (n * 10 + (c - 48))),
      )
    ]

pub vtuple-numbers : (v : Text) → vtuple v ≡ numbers v
unfolding IsRead
vtuple-numbers v =
    let (t, ts, is, read) = split-IsRead v in ap (map (digits_value 0)) is ∙ sym (read 0)

tuple_lt-Precedes : (a b : List ℕ) → tuple_lt a b ≡ true → Precedes a b
unfolding tuple_lt
tuple_lt-Precedes a [] h = cc h
tuple_lt-Precedes [] (y ∷ b) h = ([], y, b, refl, inl refl)
tuple_lt-Precedes (x ∷ a) (y ∷ b) h = elim (Bool-cases (x == y)) [
  | inr differ ↦
      let less : x < y = ground (arith, rw (differ, tuple_lt) at h) in
      ([], y, b, refl, inr (x, a, refl, less))
  | inl same ↦
      let (p, z, s, is, how) = tuple_lt-Precedes a b (rw (same, tuple_lt) at h) in
      let at : x ≡ y = ground (arith, same) in
      (
        y ∷ p,
        z,
        s,
        ap (λ l. y ∷ l) is,
        elim how [ inl ends ↦ inl cc | inr (u, r, goes, less) ↦ inr (u, r, cc, less) ],
      )
]

tuple_lt-ends : (p : List ℕ) (y : ℕ) (s : List ℕ) → tuple_lt p (p ++ y ∷ s) ≡ true
unfolding tuple_lt
tuple_lt-ends [] y s = refl
tuple_lt-ends (x ∷ p) y s = ground (arith, tuple_lt-ends p y s)

tuple_lt-differs :
    (p : List ℕ) (x y : ℕ) (r s : List ℕ) → x < y → tuple_lt (p ++ x ∷ r) (p ++ y ∷ s) ≡ true
unfolding tuple_lt
tuple_lt-differs [] x y r s h = ground arith
tuple_lt-differs (z ∷ p) x y r s h = ground (arith, tuple_lt-differs p x y r s h)

Precedes-tuple_lt : (a b : List ℕ) → Precedes a b → tuple_lt a b ≡ true
Precedes-tuple_lt a b (p, y, s, is, how) = elim how [
  | inl ends ↦ ap (λ (l : List ℕ). tuple_lt l b) ends ∙ ap (tuple_lt p) is ∙ tuple_lt-ends p y s
  | inr (x, r, goes, less) ↦
      ap (λ (l : List ℕ). tuple_lt l b) goes
      ∙ ap (tuple_lt (p ++ x ∷ r)) is
      ∙ tuple_lt-differs p x y r s less
]

vtuple-lt : (u v : Text) → tuple_lt (vtuple u) (vtuple v) ≡ tuple_lt (numbers u) (numbers v)
vtuple-lt u v =
    ap (λ a. tuple_lt a (vtuple v)) (vtuple-numbers u)
    ∙ ap (tuple_lt (numbers u)) (vtuple-numbers v)

-- The comparison of the code is this order.
pub IsNewer-true : (u v : Text) → tuple_lt (vtuple u) (vtuple v) ≡ true → IsNewer u v
IsNewer-true u v h = tuple_lt-Precedes (numbers u) (numbers v) (sym (vtuple-lt u v) ∙ h)

pub not_newer : (u v : Text) → tuple_lt (vtuple u) (vtuple v) ≡ false → ¬ IsNewer u v
not_newer u v h k = cc (sym h ∙ vtuple-lt u v ∙ Precedes-tuple_lt (numbers u) (numbers v) k)

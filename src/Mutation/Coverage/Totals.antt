-- ===== src/Mutation/Coverage/Totals.antt =====
-- The totals of the report.
use binutils_mcs.Base.{
  ℕ, ◌+◌, ◌≡◌, refl, sym, ap, ◌∙◌, Bool, true, false, not, ◌&&◌, ◌||◌, some, List, [], ◌∷◌, arith,
  if◌then◌else◌, length, any, All, Bool-cases, Option-cases, inl, inr,
}
use mathlib.Core.Path.{subst}
use mathlib.Core.Option.{some-injective}
use binutils_mcs.Base.Bytes.{equal, equal_iff}
use binutils_mcs.Base.Text.{Text}
use binutils_mcs.Base.Dict.{Dict, get, put, member, get-put}
use binutils_mcs.Mutation.Coverage.{
  Row, Results, is_scored, has_verdict, is_truncated, sort_rows, is_red, red_of, reds, red_at,
  is_empty, killed, Tables, count_at, note_red, note_stages, note_first, note_row, note_rows,
  from_keys, scored_rows, red_sets, tables, blank,
}

-- A scored row has a verdict of each stage.
abbrev pub IsComplete : List Text → Row → Type 0
IsComplete stages r = (is_scored r ≡ true) × (any (λ s. not (has_verdict r s)) stages ≡ false)

-- Each row of a file is scored, incomplete or excluded, once; and a scored row says that its mutant was killed or has
-- survived, and has a verdict of every stage.
pub sort_rows-IsComplete :
    (stages : List Text) (rows : List Row)
    → let sorted = sort_rows stages rows in
      (length sorted.scored + length sorted.incomplete + length sorted.other ≡ length rows)
      × All (IsComplete stages) sorted.scored
unfolding sort_rows
sort_rows-IsComplete stages [] = (refl, tt)
sort_rows-IsComplete stages (r ∷ rs) =
    let (count, complete) = sort_rows-IsComplete stages rs in
    elim (Bool-cases (is_scored r)) [
      | inr unscored ↦ rw unscored (omega arith, complete)
      | inl scored ↦ elim (Bool-cases (is_truncated stages r)) [
        | inl truncated ↦ rw (scored, truncated) (omega arith, complete)
        | inr whole ↦ rw (scored, whole) (omega arith, ((scored, whole), complete))
      ]
    ]

abbrev pub sum_of : Dict ℕ → ℕ
sum_of [] = 0
sum_of ((s, n) ∷ d) = n + sum_of d

sum_of-put : (s : Text) (d : Dict ℕ) → sum_of (put s (count_at s d + 1) d) ≡ sum_of d + 1
unfolding put get
sum_of-put s [] = refl
sum_of-put s ((t, n) ∷ d) = ground (arith, sum_of-put s d)

sum_of-note_first :
    (rset ss : List Text) (d : Dict ℕ)
    → sum_of (note_first rset ss d) ≡ sum_of d + (if any (λ s. member s rset) ss then 1 else 0)
unfolding note_first
sum_of-note_first rset [] d = omega arith
sum_of-note_first rset (s ∷ ss) d = elim (Bool-cases (member s rset)) [
  | inl here ↦ rw here (sum_of-put s d)
  | inr later ↦ rw later (sum_of-note_first rset ss d)
]

first-note_stages :
    (rset ss : List Text) (r : Row) (t : Tables) → (note_stages rset r ss t).first ≡ t.first
unfolding note_stages
first-note_stages rset [] r t = refl
first-note_stages rset (s ∷ ss) r t = elim (Bool-cases (is_red r s)) [
  | inl red ↦
      rw (red, note_stages)
        (first-note_stages rset ss r (note_red rset r s t) ∙ (unfold note_red in refl))
  | inr green ↦ rw (green, note_stages) (first-note_stages rset ss r t)
]

or_true : (p : Bool) {q : Bool} → q ≡ true → p || q ≡ true
or_true true h = refl
or_true false h = h

-- What a list has, and what is so for it, is so for one of the list.
member-any :
    (p : Text → Bool) (x : Text) (ss : List Text)
    → member x ss ≡ true
    → p x ≡ true
    → any p ss ≡ true
member-any p x [] m h = cc
member-any p x (s ∷ ss) m h = elim (Bool-cases (equal x s)) [
  | inl same ↦ rw (subst (λ z. p z ≡ true) ((equal_iff x s).0 same) h)
  | inr other ↦ or_true (p s) (member-any p x ss (rw other at m) h)
]

-- A red stage is one of the list.
red_of-member :
    (x : Text) (ss : List Text) (r : Row) → member x (red_of ss r) ≡ true → member x ss ≡ true
unfolding red_of
red_of-member x [] r m = m
red_of-member x (s ∷ ss) r m = elim (Bool-cases (is_red r s && not (member s (red_of ss r)))) [
  | inl new ↦ elim (Bool-cases (equal x s)) [
    | inl same ↦ rw same
    | inr other ↦ rw other (red_of-member x ss r (rw (new, other) at m))
  ]
  | inr old ↦ or_true (equal x s) (red_of-member x ss r (rw old at m))
]

-- A red set is empty or has a stage of the list.
abbrev Reaches : List Text → List Text → Type 0
Reaches stages rset = is_empty rset ≡ false → any (λ s. member s rset) stages ≡ true

within-Reaches :
    (stages rset : List Text)
    → ((x : Text) → member x rset ≡ true → member x stages ≡ true)
    → Reaches stages rset
within-Reaches stages [] h e = cc
within-Reaches stages (x ∷ xs) h e =
    let here : member x (x ∷ xs) ≡ true = rw ((equal_iff x x).1 refl) in
    member-any (λ s. member s (x ∷ xs)) x stages (h x here) here

AllReach : List Text → Dict (List Text) → Type 0
AllReach stages d = (k : Text) (v : List Text) → get k d ≡ some v → Reaches stages v

put-AllReach :
    (stages : List Text) (k : Text) (v : List Text) (d : Dict (List Text))
    → Reaches stages v
    → AllReach stages d
    → AllReach stages (put k v d)
unfolding AllReach
put-AllReach stages k v d new old j w e = elim (Bool-cases (equal j k)) [
  | inl same ↦
      subst (Reaches stages) (some-injective v w (sym (get-put k j v d ∙ (rw same)) ∙ e)) new
  | inr other ↦ old j w (sym (get-put k j v d ∙ (rw other)) ∙ e)
]

reds-AllReach :
    (stages : List Text) (rs : List Row) (d : Dict (List Text))
    → AllReach stages d
    → AllReach stages (reds stages rs d)
unfolding reds
reds-AllReach stages [] d h = h
reds-AllReach stages (r ∷ rs) d h = reds-AllReach stages rs (put r.id (red_of stages r) d) (
    put-AllReach stages r.id (red_of stages r) d
      (within-Reaches stages (red_of stages r) (λ x m. red_of-member x stages r m)) h)

red_at-Reaches :
    (stages : List Text) (d : Dict (List Text)) (r : Row)
    → AllReach stages d
    → Reaches stages (red_at d r)
unfolding AllReach
red_at-Reaches stages d r h = elim (Option-cases (get r.id d)) [
  | inl absent ↦ rw (absent, red_at) (λ e. cc e)
  | inr (v, is) ↦ rw (is, red_at) (h r.id v is)
]

member-none : (ss : List Text) → any (λ s. member s []) ss ≡ false
member-none [] = refl
member-none (s ∷ ss) = member-none ss

one_first :
    (stages rset : List Text)
    → Reaches stages rset
    → ◌≡◌ {A = ℕ}
        (if any (λ s. member s rset) stages then 1 else 0)
        (if is_empty rset then 0 else 1)
one_first stages [] h = rw (member-none stages)
one_first stages (x ∷ xs) h = rw (h refl)

first-note_row :
    (stages : List Text) (red : Dict (List Text)) (r : Row) (t : Tables)
    → Reaches stages (red_at red r)
    → sum_of (note_row stages red r t).first
      ≡ sum_of t.first + (if is_empty (red_at red r) then 0 else 1)
unfolding note_row
first-note_row stages red r t h =
    let rset = red_at red r in
    let first = (note_stages rset r stages t).first in
    sum_of-note_first rset stages first
    ∙ ap (λ n. sum_of first + n) (one_first stages rset h)
    ∙ ap (λ d. sum_of d + (if is_empty rset then 0 else 1)) (first-note_stages rset stages r t)

first-note_rows :
    (stages : List Text) (red : Dict (List Text)) (rs : List Row) (t : Tables)
    → AllReach stages red
    → sum_of (note_rows stages red rs t).first ≡ sum_of t.first + length (killed red rs)
unfolding note_rows killed
first-note_rows stages red [] t h = omega arith
first-note_rows stages red (r ∷ rs) t h = ground (
  arith,
  first-note_rows stages red rs (note_row stages red r t) h,
  first-note_row stages red r t (red_at-Reaches stages red r h),
)

sum_of-zero : (s : Text) (d : Dict ℕ) → sum_of d ≡ 0 → sum_of (put s 0 d) ≡ 0
unfolding put
sum_of-zero s [] h = refl
sum_of-zero s ((t, n) ∷ d) h = let z = sum_of-zero s d in ground (arith, z)

sum_of-from_keys : (ss : List Text) (d : Dict ℕ) → sum_of d ≡ 0 → sum_of (from_keys 0 ss d) ≡ 0
unfolding from_keys
sum_of-from_keys [] d h = h
sum_of-from_keys (s ∷ ss) d h = sum_of-from_keys ss (put s 0 d) (sum_of-zero s d h)

-- The column `fail-first` adds up to the number of the mutants that were killed: each of them is counted at one stage.
pub first-total :
    (d : Results) → sum_of (tables d).first ≡ length (killed (red_sets d) (scored_rows d))
unfolding tables AllReach get
first-total d =
    let total =
      first-note_rows d.stages (red_sets d) (scored_rows d) (blank d.stages)
        (reds-AllReach d.stages (scored_rows d) [] (λ k v e. cc e)) in
    let start = sum_of-from_keys d.stages [] refl in
    total ∙ ap (λ n. n + length (killed (red_sets d) (scored_rows d))) start ∙ omega arith

-- ===== src/Roms/Gate/Agrees.antt =====
-- The gate passes exactly the outcomes that are recorded.
use binutils_mcs.Base.{
  ℕ, ◌≡◌, ◌≢◌, ◌↔◌, refl, sym, ◌∙◌, ap, Bool, true, ◌||◌, Option, none, some, List, [], ◌∷◌, ◌++◌,
  arith, if◌then◌else◌, Result, ok, Bool-cases, Option-cases, Result-cases, inl, inr,
}
use binutils_mcs.Base.Int.{eq_ℤ_iff}
use binutils_mcs.Base.Bytes.{Bytes, equal, equal_iff}
use binutils_mcs.Base.Text.{Text, words}
use binutils_mcs.Base.Dict.{Dict, get, put, keys, member, member-keys, get-keys, get-put}
use binutils_mcs.Roms.Diff.{Outcome, compare_roms}
use binutils_mcs.Roms.Gate.{
  Refusal, short_line, value_error, no_projects, read_expect, outcome_eq, agree, count_bad, without,
  either_key, gate, outcomes, compare_all, main,
}

outcome_eq_iff : (a b : Outcome) → (outcome_eq a b ≡ true) ↔ (a ≡ b)
outcome_eq_iff a b =
    ground
      (arith, equal_iff a.kind b.kind, eq_ℤ_iff a.differing b.differing, eq_ℤ_iff a.size b.size)

agree-eq : (a b : Option Outcome) → agree a b ≡ true → a ≡ b
agree-eq a none h = cc
agree-eq none (some b) h = cc
agree-eq (some a) (some b) h = ap some ((outcome_eq_iff a b).0 h)

agree_refl : (a : Outcome) → agree (some a) (some a) ≡ true
agree_refl a = (outcome_eq_iff a a).1 refl

member-append : (p : Text) (xs ys : List Text) → member p (xs ++ ys) ≡ (member p xs || member p ys)
member-append p [] ys = refl
member-append p (x ∷ xs) ys = ground (arith, member-append p xs ys)

member_same : (p x : Text) (xs : List Text) → equal p x ≡ true → member p xs ≡ member x xs
member_same p x xs h = ap (λ y. member y xs) ((equal_iff p x).0 h)

member-without :
    (p : Text) (old xs : List Text)
    → (member p old || member p (without old xs)) ≡ (member p old || member p xs)
member-without p old [] = refl
member-without p old (x ∷ xs) = elim (Bool-cases (equal p x)) [
  | inl same ↦ ground (arith, member_same p x old same, member-without p old xs)
  | inr other ↦ ground (arith, member-without p old xs)
]

-- Whether a project passes.
abbrev passes : Dict Outcome → Dict Outcome → Text → Bool
passes got want p = agree (get p got) (get p want)

count_bad-zero :
    (got want : Dict Outcome) (ps : List Text) (p : Text)
    → count_bad got want ps ≡ 0
    → member p ps ≡ true
    → passes got want p ≡ true
unfolding count_bad
count_bad-zero got want [] p h m = cc
count_bad-zero got want (q ∷ ps) p h m = elim (Bool-cases (passes got want q)) [
  | inr fails ↦ absurd (omega (arith, rw (fails, count_bad) at h))
  | inl fine ↦ elim (Bool-cases (equal p q)) [
    | inl same ↦ ap (passes got want) ((equal_iff p q).0 same) ∙ fine
    | inr other ↦
        count_bad-zero got want ps p (omega (arith, rw (fine, count_bad) at h)) (rw other at m)
  ]
]

zero-count_bad :
    (got want : Dict Outcome) (ps : List Text)
    → ((p : Text) → member p ps ≡ true → passes got want p ≡ true)
    → count_bad got want ps ≡ 0
unfolding count_bad
zero-count_bad got want [] h = refl
zero-count_bad got want (q ∷ ps) h =
    rw (h q (rw ((equal_iff q q).1 refl)), count_bad)
      (omega (arith, zero-count_bad got want ps (λ p m. h p (ground (arith, m)))))

member-either_key :
    (got want : Dict Outcome) (p : Text)
    → member p (either_key got want) ≡ (member p (keys got) || member p (keys want))
member-either_key got want p =
    member-append p (keys got) (without (keys got) (keys want))
    ∙ member-without p (keys got) (keys want)

agree_self : (o : Option Outcome) {a : Outcome} → o ≡ some a → agree o o ≡ true
agree_self none h = cc
agree_self (some a) h = agree_refl a

-- Dictionaries that pass at each of their keys are the same, and the other way round.
module _ (got want : Dict Outcome) where
  count_bad-get : count_bad got want (either_key got want) ≡ 0 → (p : Text) → get p got ≡ get p want
  count_bad-get h p =
      let at_key = λ (m : (member p (keys got) || member p (keys want)) ≡ true).
        agree-eq (get p got) (get p want)
          (count_bad-zero got want (either_key got want) p h (member-either_key got want p ∙ m)) in
      elim (Option-cases (get p got)) [
        | inr (a, is) ↦ at_key (rw (member-keys p got is))
        | inl nothing ↦ elim (Option-cases (get p want)) [
          | inl neither ↦ nothing ∙ sym neither
          | inr (b, is) ↦ at_key (ground (arith, member-keys p want is))
        ]
      ]

  passes-get :
      ((p : Text) → get p got ≡ get p want)
      → (p : Text) → member p (either_key got want) ≡ true
      → passes got want p ≡ true
  passes-get h p m =
      let self : passes got want p ≡ agree (get p got) (get p got) =
        ap (agree (get p got)) (sym (h p)) in
      elim (Bool-cases (member p (keys got))) [
        | inl old ↦ let (a, is) = get-keys p got old in self ∙ agree_self (get p got) is
        | inr new ↦
            let (b, is) = get-keys p want (ground (arith, member-either_key got want p)) in
            self ∙ agree_self (get p got) (h p ∙ is)
      ]

status_one : ◌≡◌ {A = Result Refusal ℕ} (ok 1) (ok 0) → ◌≡◌ {A = ℕ} 1 0
status_one h = cc

-- The gate passes exactly if the file of expectations is read, and what it records for every
-- project, or that it records nothing, is what the run has found.
pub gate_iff :
    (got : Dict Outcome) (lines : List Text)
    → (gate got lines ≡ ok 0) ↔ (
        (want : Dict Outcome) × (read_expect lines [] ≡ ok want)
        × ((p : Text) → get p got ≡ get p want))
unfolding gate
gate_iff got lines = (
  (λ h. elim (Result-cases (read_expect lines [])) [
    | inr (short_line, is) ↦ absurd (omega (arith, status_one (rw (is, gate) at h)))
    | inr (value_error, is) ↦ cc (rw (is, gate) at h)
    | inr (no_projects, is) ↦ cc (rw (is, gate) at h)
    | inl (want, is) ↦ (want, is, count_bad-get got want (ground (arith, rw (is, gate) at h)))
  ]),
  (λ (want, is, same).
      rw (is, gate)
        (rw (zero-count_bad got want (either_key got want) (passes-get got want same)))),
)

-- What a run has found, and what has to be recorded, of a project.
abbrev pub found : (Text → Option Bytes) → (Text → Option Bytes) → List Text → Text → Option Outcome
found reference produced ps p =
    if member p ps then some (compare_roms (reference p) (produced p)) else none

get-outcomes :
    (reference produced : Text → Option Bytes) (ps : List Text) (d : Dict Outcome) (p : Text)
    → get p (outcomes reference produced ps d)
      ≡ (if member p ps then some (compare_roms (reference p) (produced p)) else get p d)
unfolding outcomes
get-outcomes reference produced [] d p = refl
get-outcomes reference produced (q ∷ ps) d p =
    let compare_of : Text → Outcome = λ x. compare_roms (reference x) (produced x) in
    elim (Bool-cases (equal p q)) [
      | inl same ↦
          let one : compare_of q ≡ compare_of p = ap compare_of (sym ((equal_iff p q).0 same)) in
          ground (
            arith,
            get-outcomes reference produced ps (put q (compare_of q) d) p,
            get-put q p (compare_of q) d,
            one,
          )
      | inr other ↦ ground (
        arith,
        get-outcomes reference produced ps (put q (compare_of q) d) p,
        get-put q p (compare_of q) d,
      )
    ]

compare_all_iff :
    (reference produced : Text → Option Bytes) (ps : List Text) (lines : List Text)
    → (compare_all reference produced ps (some lines) ≡ ok 0) ↔ (
        (ps ≢ [])
        × (want : Dict Outcome) × (read_expect lines [] ≡ ok want)
        × ((p : Text) → found reference produced ps p ≡ get p want))
unfolding compare_all get
compare_all_iff reference produced [] lines = ((λ h. cc h), (λ k. absurd (k.0 refl)))
compare_all_iff reference produced (q ∷ qs) lines =
    let got = outcomes reference produced (q ∷ qs) [] in
    let found_get = λ (p : Text). get-outcomes reference produced (q ∷ qs) [] p in
    (
      (λ h.
          let (want, is, same) = (gate_iff got lines).0 h in
          ((λ e. cc e), want, is, (λ p. sym (found_get p) ∙ same p))),
      (λ (some_project, want, is, same).
          (gate_iff got lines).1 (want, is, (λ p. found_get p ∙ same p))),
    )

-- A run with expectations ends with status 0 exactly if it was given projects, the expectations are
-- read, and they record for each of the projects the comparison of its two files, and nothing for
-- any other.
pub main_iff :
    (reference produced : Text → Option Bytes) (projects : Text) (lines : List Text)
    → (main reference produced projects (some lines) ≡ ok 0) ↔ (
        (words projects ≢ [])
        × (want : Dict Outcome) × (read_expect lines [] ≡ ok want)
        × ((p : Text) → found reference produced (words projects) p ≡ get p want))
main_iff reference produced projects lines =
    compare_all_iff reference produced (words projects) lines

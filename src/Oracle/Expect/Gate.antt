-- ===== src/Oracle/Expect/Gate.antt =====
-- When the comparison with the recorded outcome passes.
use Prim.Native.String.{String}
use binutils_mcs.Base.{
  ℕ, ◌≡◌, ◌≢◌, ◌↔◌, ◌⊎◌, refl, ap, ◌∙◌, true, false, Option, none, some, List, [], ◌∷◌, ◌++◌, arith,
  if◌then◌else◌, Result, ok, err, >>=-eq-ok, length, All, Bool-cases, Option-cases, inl, inr,
}
use binutils_mcs.Base.Bytes.{Bytes}
use binutils_mcs.Base.Int.{ℤ, sub_ℕ, eq_ℤ, eq_ℤ_iff}
use binutils_mcs.Base.Text.{Text}
use binutils_mcs.Hex.Image.{IhexError, read_ihex}
use binutils_mcs.Oracle.Classify.{classify}
use binutils_mcs.Oracle.Expect.{
  Counts, counts_of, counts_eq, Expect, expect_table, Failure, no_oracle, no_rom, size_delta,
  Verdict, check_oracle, check_counts, judge_counts, judge_delta, judge, Crash, expect_of, hexed,
  only, check_project, check_projects, any_failed, exit_status,
}

counts_eq_iff : (a b : Counts) → (counts_eq a b ≡ true) ↔ (a ≡ b)
unfolding counts_eq
counts_eq_iff a b = ground arith

-- The counts are the recorded ones, where counts are recorded.
abbrev pub AreRecorded : Option Counts → Bytes → Bytes → Type 0
AreRecorded none oracle produced = Unit
AreRecorded (some want) oracle produced = counts_of (classify oracle produced) ≡ want

-- Both sizes are as recorded, and all six counts where counts are recorded.
pub record IsAsRecorded (e : Expect) (oracle produced : Bytes) : Type 0 where
  pub oracle_size_is : length oracle ≡ e.oracle
  pub delta_is : sub_ℕ (length produced) (length oracle) ≡ e.delta
  pub counts_are : AreRecorded e.counts oracle produced

check_oracle_iff : (e : Expect) (o : Bytes) → (check_oracle e o ≡ []) ↔ (length o ≡ e.oracle)
unfolding check_oracle
check_oracle_iff e o = ground arith

append-nil_both : {A : Type 0} (xs ys : List A) → xs ++ ys ≡ [] → (xs ≡ []) × (ys ≡ [])
append-nil_both [] ys h = (refl, h)
append-nil_both (x ∷ xs) ys h = cc

append-cons_ne : {A : Type 0} (xs : List A) (y : A) → xs ++ y ∷ [] ≢ []
append-cons_ne [] y h = cc
append-cons_ne (x ∷ xs) y h = cc

check_counts_iff : (got want : Counts) → (check_counts got want ≡ []) ↔ (got ≡ want)
unfolding check_counts
check_counts_iff got want = ground (arith, counts_eq_iff got want)

judge_counts_iff :
    (c : Option Counts) (first : List Failure) (oracle produced : Bytes)
    → ((judge_counts c first oracle produced).failures ≡ [])
      ↔ ((first ≡ []) × AreRecorded c oracle produced)
unfolding judge_counts
judge_counts_iff none first oracle produced = ((λ h. (h, tt)), λ h. h.0)
judge_counts_iff (some want) first oracle produced = (
  (λ h.
      let (none_first, none_more) = append-nil_both first _ h in
      (none_first, (check_counts_iff _ want).0 none_more)),
  λ h. rw (h.0, (check_counts_iff _ want).1 h.1) refl,
)

judge_delta_iff :
    (e : Expect) (delta : ℤ) (first : List Failure) (oracle produced : Bytes)
    → ((judge_delta e delta first oracle produced).failures ≡ [])
      ↔ ((delta ≡ e.delta) × (first ≡ []) × AreRecorded e.counts oracle produced)
unfolding judge_delta
judge_delta_iff e delta first oracle produced = elim (Bool-cases (eq_ℤ delta e.delta)) [
  | inl same ↦
      let counted = judge_counts_iff e.counts first oracle produced in
      let is : delta ≡ e.delta = (eq_ℤ_iff delta e.delta).0 same in
      rw same ((λ h. (is, (counted.0 h).0, (counted.0 h).1)), λ h. counted.1 (h.1, h.2))
  | inr differ ↦ rw differ (
    (λ h. absurd (append-cons_ne first (size_delta delta e.delta) h)),
    λ h. absurd (cc ((eq_ℤ_iff delta e.delta).1 h.0)),
  )
]

-- A project passes exactly if the 2001 image has its recorded size, the size delta is as recorded,
-- and all six counts are as recorded where counts are recorded.
pub judge-IsAsRecorded :
    (e : Expect) (oracle produced : Bytes)
    → ((judge e oracle produced).failures ≡ []) ↔ IsAsRecorded e oracle produced
unfolding judge
judge-IsAsRecorded e oracle produced =
    let (passed, failed) =
      judge_delta_iff e (sub_ℕ (length produced) (length oracle)) (check_oracle e oracle) oracle
        produced in
    (
      (λ h.
          let (d, f, c) = passed h in
          record {
            oracle_size_is = (check_oracle_iff e oracle).0 f;
            delta_is = d;
            counts_are = c;
          }),
      λ r. failed (r.delta_is, (check_oracle_iff e oracle).1 r.oracle_size_is, r.counts_are),
    )

module _ (hex : String → Option (List Text)) (rom : String → Option Bytes) where
  -- Both files of the project exist, the oracle can be read, and all is as recorded.
  pub record Agrees (p : String) : Type 0 where
    pub lines : List Text
    pub oracle : Bytes
    pub produced : Bytes
    pub expected : Expect
    pub hex_is : hex p ≡ some lines
    pub rom_is : rom p ≡ some produced
    pub oracle_is : read_ihex lines ≡ ok oracle
    pub listed : expect_of expect_table p ≡ ok expected
    pub recorded : IsAsRecorded expected oracle produced

  List-cases : {A : Type 0} (xs : List A) → (xs ≡ []) ⊎ ((x : A) × (r : List A) × (xs ≡ x ∷ r))
  List-cases [] = inl refl
  List-cases (x ∷ xs) = inr (x, xs, refl)

  hexed-ok : (r : Result IhexError Bytes) (b : Bytes) → hexed r ≡ ok b → r ≡ ok b
  hexed-ok (ok a) b h = cc
  hexed-ok (err e) b h = cc

  ok-failures : (w v : Verdict) → w ≡ v → v.failures ≡ [] → w.failures ≡ []
  ok-failures w v e n = ap (λ (u : Verdict). u.failures) e ∙ n

  abbrev verdict_ok : Verdict → Result Crash Verdict
  verdict_ok = ok

  ok-injective : (w v : Verdict) → verdict_ok w ≡ ok v → w ≡ v
  ok-injective w v h = cc

  only-failures : (f : Failure) (v : Verdict) → verdict_ok (only f) ≡ ok v → v.failures ≢ []
  only-failures f v h n = cc (ok-failures (only f) v (ok-injective (only f) v h) n)

  check_project-Agrees :
      (p : String) (v : Verdict) → check_project hex rom p ≡ ok v → v.failures ≡ [] → Agrees p
  unfolding check_project
  check_project-Agrees p v h n = elim (Option-cases (hex p)) [
    | inl missing ↦ absurd (only-failures no_oracle v (rw (missing, check_project) at h) n)
    | inr (lines, found) ↦ elim (Option-cases (rom p)) [
      | inl missing ↦ absurd (
          only-failures no_rom v (rw (missing, check_project) at (rw (found, check_project) at h))
            n)
      | inr (produced, built) ↦
          let run = rw (built, check_project) at (rw (found, check_project) at h) in
          let (oracle, read, next) = >>=-eq-ok (hexed (read_ihex lines)) _ run in
          let (e, listed, judged) = >>=-eq-ok (expect_of expect_table p) _ next in
          record {
            lines = lines;
            oracle = oracle;
            produced = produced;
            expected = e;
            hex_is = found;
            rom_is = built;
            oracle_is = hexed-ok (read_ihex lines) oracle read;
            listed = listed;
            recorded = (judge-IsAsRecorded e oracle produced).0 (
                ok-failures (judge e oracle produced) v
                  (ok-injective (judge e oracle produced) v judged) n);
          }
    ]
  ]

  any_failed-cons :
      (p : String) (v : Verdict) (vs : List (String × Verdict))
      → any_failed ((p, v) ∷ vs) ≡ false
      → (v.failures ≡ []) × (any_failed vs ≡ false)
  unfolding any_failed
  any_failed-cons p v vs h = elim (List-cases v.failures) [
    | inl none_here ↦ (none_here, rw (none_here, any_failed) at h)
    | inr (f, fs, some_here) ↦ absurd (cc (rw (some_here, any_failed) at h))
  ]

  check_projects-Agrees :
      (ps : List String) (vs : List (String × Verdict))
      → check_projects hex rom ps ≡ ok vs
      → any_failed vs ≡ false
      → All Agrees ps
  unfolding check_projects
  check_projects-Agrees [] vs h f = tt
  check_projects-Agrees (p ∷ ps) vs h f =
      let (v, here, next) = >>=-eq-ok (check_project hex rom p) _ h in
      let (rest, there, last) = >>=-eq-ok (check_projects hex rom ps) _ next in
      let is : (p, v) ∷ rest ≡ vs = cc last in
      let (quiet, others) = any_failed-cons p v rest (ap any_failed is ∙ f) in
      (check_project-Agrees p v here quiet, check_projects-Agrees ps rest there others)

  quiet :
      (vs : List (String × Verdict))
      → Path (Result Crash ℕ) (ok (if any_failed vs then 1 else 0)) (ok 0)
      → any_failed vs ≡ false
  quiet vs h = elim (Bool-cases (any_failed vs)) [
    | inl failed ↦ absurd (cc (rw failed at h))
    | inr passed ↦ passed
  ]

  -- If the run ends with status 0, projects were named, and for each of them the 2001 image could
  -- be read, a ROM was built, the project is listed, and the two images are as recorded.
  pub exit_status-Agrees :
      (ps : List String) → exit_status hex rom ps ≡ ok 0 → (ps ≢ []) × All Agrees ps
  unfolding exit_status
  exit_status-Agrees [] h = cc
  exit_status-Agrees (p ∷ ps) h =
      let (vs, ran, last) = >>=-eq-ok (check_projects hex rom (p ∷ ps)) _ h in
      ((λ e. cc), check_projects-Agrees (p ∷ ps) vs ran (quiet vs last))

-- ===== src/Oracle/Expect.antt =====
-- The recorded outcome of each project, and the loop of `main` that holds every project against it.
pub mod Gate
use text.Mathlib.Text.{◌==◌ as str_eq}
use Prim.Native.String.{String}
use binutils_mcs.Base.{
  ℕ, ◌+◌, Bool, true, false, not, ◌&&◌, Option, none, some, List, [], ◌∷◌, ◌++◌, ◌==◌,
  if◌then◌else◌, Result, ok, err, ◌>>=◌, length,
}
use binutils_mcs.Base.Bytes.{Bytes}
use binutils_mcs.Base.Int.{ℤ, pos, negsuc, sub_ℕ, eq_ℤ}
use binutils_mcs.Base.Text.{Text}
use binutils_mcs.Hex.Image.{IhexError, read_ihex}
use binutils_mcs.Oracle.Classify.{Tally, classify}

-- All six buckets, as `_c` builds them and as the table prints them.
pub record Counts : Type 0 where
  pub addr16 : ℕ
  pub acall11 : ℕ
  pub word16 : ℕ
  pub pcode13 : ℕ
  pub zero8 : ℕ
  pub residual : ℕ

abbrev pub counts : ℕ → ℕ → ℕ → ℕ → ℕ → ℕ → Counts
counts a c w p z r = record {
  addr16 = a;
  acall11 = c;
  word16 = w;
  pcode13 = p;
  zero8 = z;
  residual = r;
}

-- `counts["residual"] = len(residual)`
unfoldable pub counts_of : Tally → Counts
counts_of t = counts t.addr16s t.acall11s t.word16s t.pcode13s t.zero8s (length t.residuals)

unfoldable pub counts_eq : Counts → Counts → Bool
counts_eq a b =
    a.addr16 == b.addr16
    && a.acall11 == b.acall11
    && a.word16 == b.word16
    && a.pcode13 == b.pcode13
    && a.zero8 == b.zero8
    && a.residual == b.residual

-- One row of EXPECT, without the text of its reason.
pub record Expect : Type 0 where
  pub oracle : ℕ
  pub delta : ℤ
  pub counts : Option Counts

abbrev row : ℕ → ℤ → Option Counts → Expect
row o d c = record { oracle = o; delta = d; counts = c }

abbrev same_layout : ℕ → Counts → Expect
same_layout o c = row o (pos 0) (some c)

unfoldable pub expect_table : List (String × Expect)
expect_table =
    ("diag", row 1264 (pos 3) none)
    ∷ ("ds1620", same_layout 6284 (counts 308 1 137 25 400 25))
    ∷ ("ds1822", same_layout 6078 (counts 357 1 141 22 427 28))
    ∷ ("lcd", same_layout 5754 (counts 321 2 137 25 422 27))
    ∷ ("led1", same_layout 5173 (counts 279 1 133 25 398 25))
    ∷ ("led2", same_layout 5010 (counts 281 1 135 25 422 25))
    ∷ ("led3", same_layout 5200 (counts 283 1 137 25 444 25))
    ∷ ("serial", row 9647 (negsuc 1518) none)
    ∷ ("welcome", same_layout 4812 (counts 264 1 131 25 402 25))
    ∷ ("wjava", same_layout 4812 (counts 264 1 131 25 402 25))
    ∷ []

-- A line of `failures`, with the numbers that it reports.
pub data Failure : Type 0 where
  no_oracle no_rom : Failure
  oracle_size : ℕ → ℕ → Failure
  size_delta : ℤ → ℤ → Failure
  moved : Counts → Counts → Failure

-- What the run of one project adds to `failures`, `classified` and `size_only`.
pub record Verdict : Type 0 where
  pub failures : List Failure
  pub classified : Bool
  pub size_only : Bool

unfoldable pub check_oracle : Expect → Bytes → List Failure
check_oracle e oracle =
    if not (length oracle == e.oracle) then oracle_size (length oracle) e.oracle ∷ [] else []

-- The comparison of the counts.
unfoldable pub check_counts : Counts → Counts → List Failure
check_counts got want = if not (counts_eq got want) then moved got want ∷ [] else []

-- The branches behind the test of the size delta, by `want_counts`.
unfoldable pub judge_counts : Option Counts → List Failure → Bytes → Bytes → Verdict
unfolding check_counts counts_eq counts_of
judge_counts none first oracle produced = record {
  failures = first;
  classified = false;
  size_only = true;
}
judge_counts (some want) first oracle produced = record {
  failures = first ++ check_counts (counts_of (classify oracle produced)) want;
  classified = true;
  size_only = false;
}

unfoldable pub judge_delta : Expect → ℤ → List Failure → Bytes → Bytes → Verdict
unfolding judge_counts
judge_delta e delta first oracle produced =
    if not (eq_ℤ delta e.delta)
    then record {
      failures = first ++ size_delta delta e.delta ∷ [];
      classified = false;
      size_only = false;
    }
    else judge_counts e.counts first oracle produced

-- The body of the loop, where both images are there.
unfoldable pub judge : Expect → Bytes → Bytes → Verdict
unfolding check_oracle judge_delta
judge e oracle produced =
    judge_delta e (sub_ℕ (length produced) (length oracle)) (check_oracle e oracle) oracle produced

-- What stops the script with an exception.
pub data Crash : Type 0 where
  bad_hex : IhexError → Crash
  unknown_project : Crash

unfoldable pub expect_of : List (String × Expect) → String → Result Crash Expect
expect_of [] p = err unknown_project
expect_of ((q, e) ∷ table) p = if str_eq q p then ok e else expect_of table p

abbrev pub hexed : Result IhexError Bytes → Result Crash Bytes
hexed (ok b) = ok b
hexed (err e) = err (bad_hex e)

abbrev pub only : Failure → Verdict
only f = record { failures = f ∷ []; classified = false; size_only = false }

-- Whether any project added a failure.
unfoldable pub any_failed : List (String × Verdict) → Bool
any_failed [] = false
any_failed ((p, v) ∷ rest) = elim v.failures [ [] ↦ any_failed rest | _ ∷ _ ↦ true ]

-- The files of a run: the lines of www8051.hex and the bytes of www8051.rom, where they exist.
module _ (hex : String → Option (List Text)) (rom : String → Option Bytes) where
  -- One turn of the loop.
  unfoldable pub check_project : String → Result Crash Verdict
  check_project p = elim (hex p) [
    | none ↦ ok (only no_oracle)
    | some lines ↦ elim (rom p) [
      | none ↦ ok (only no_rom)
      | some produced ↦ do
        oracle ← hexed (read_ihex lines)
        e ← expect_of expect_table p
        ok (judge e oracle produced)
    ]
  ]

  unfoldable pub check_projects : List String → Result Crash (List (String × Verdict))
  check_projects [] = ok []
  check_projects (p ∷ ps) = do v ← check_project p; rest ← check_projects ps; ok ((p, v) ∷ rest)

  -- The exit status: 1 for an empty list of projects and for any failure.
  unfoldable pub exit_status : List String → Result Crash ℕ
  unfolding check_projects check_project any_failed
  exit_status [] = ok 1
  exit_status (p ∷ ps) = do vs ← check_projects (p ∷ ps); ok (if any_failed vs then 1 else 0)

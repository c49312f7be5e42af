-- ===== src/Watch/Patches.antt =====
-- `patch_shape` and `apply_patch` of tb/upstream_watch.py. What patch(1) gives is a
-- parameter: its exit code, which is below zero where a signal ended it, and the log; `none` where it is
-- missing or does not end in time. Messages are left out.
pub mod Verdicts
use binutils_mcs.Base.{
  ℕ, zero, suc, ◌+◌, Bool, true, false, not, ◌&&◌, ◌||◌, Option, none, some, List, [], ◌∷◌, ◌++◌,
  map, any, ltb, leb, ◌==◌, if◌then◌else◌, Result, ok, err, ◌>>=◌,
}
use binutils_mcs.Base.Bytes.{codes, equal, starts_with}
use binutils_mcs.Base.Int.{ℤ, pos, negsuc}
use binutils_mcs.Base.Text.{Text, between, strip, rstrip, split, splitlines, contains}
use binutils_mcs.Base.Scan.{after, digits, run_of}
use binutils_mcs.Watch.Log.{
  Slide, Reject, Log, or_else, ends, hunk_line, skip_fuzz, offset_of, match_ok, match_failed,
  out_of, is_trouble, match_patching, log_line, log_lines, parse_patch_log,
}
use binutils_mcs.Watch.Releases.{
  Malfunction, no_patch, no_tool, patch_trouble, unread_offset, unread_failure, reversed,
}

abbrev first_of : List Text → Text
first_of [] = []
first_of (n ∷ ns) = n

-- The files and the hunks that a patch declares.
unfoldable pub patch_shape : List Text → List Text × ℕ
unfolding after
patch_shape [] = ([], 0)
patch_shape (line ∷ lines) =
    let (files, hunks) = patch_shape lines in
    elim (after (codes "+++ ") line) [
      | some r ↦
          let name = first_of (split 9 (strip r)) in
          (or_else name (after (codes "b/") name) ∷ files, hunks)
      | none ↦ (files, if starts_with line (codes "@@") then hunks + 1 else hunks)
    ]

pub data Verdict : Type 0 where
  clean offsets rejected : Verdict

-- What is reported of a patch; `unnamed` stands for the failure that names no hunk.
pub record Applied : Type 0 where
  pub rc : ℤ
  pub verdict : Verdict
  pub log : Log
  pub unnamed : Bool
  pub files : List Text
  pub hunks : ℕ

-- `log.lower()` as far as a word in letters of ASCII is looked for
abbrev pub lower : Text → Text
lower s = map (λ c. if between b'A' b'Z' c then c + 32 else c) s

abbrev none_in {ℓ} : {A : Type ℓ} → List A → Bool
none_in [] = true
none_in (x ∷ xs) = false

-- `cp.returncode >= 2`
abbrev pub is_serious : ℤ → Bool
is_serious (pos n) = leb 2 n
is_serious (negsuc n) = false

abbrev pub is_code : ℕ → ℤ → Bool
is_code n (pos m) = m == n
is_code n (negsuc m) = false

-- `Reversed \(or previously applied\)|Assume -R`
abbrev pub says_reversed : Text → Bool
says_reversed log =
    contains (codes "Reversed (or previously applied)") log || contains (codes "Assume -R") log

abbrev pub verdict_of : ℤ → Log → Verdict
verdict_of rc log =
    if is_code 1 rc then rejected else if not (none_in log.offsets) then offsets else clean

-- Behind the run of patch.
unfoldable pub judge_patch : ℤ → Text → List Text → Result Malfunction Applied
unfolding log_lines patch_shape
judge_patch rc text lines =
    let log = parse_patch_log text in
    if is_serious rc
    then err patch_trouble
    else if contains (codes "offset") (lower text) && none_in log.offsets
    then err unread_offset
    else if contains (codes "FAILED") text && none_in log.failures && is_code 0 rc
    then err unread_failure
    else if is_code 0 rc && says_reversed text
    then err reversed
    else ok (record {
      rc = rc;
      verdict = verdict_of rc log;
      log = log;
      unnamed = is_code 1 rc && none_in log.failures;
      files = (patch_shape lines).0;
      hunks = (patch_shape lines).1;
    })

-- The lines of the patch, if there is one, and what running it gave.
unfoldable pub apply_patch : Option (List Text) → Option (ℤ × Text) → Result Malfunction Applied
unfolding judge_patch
apply_patch none out = err no_patch
apply_patch (some lines) none = err no_tool
apply_patch (some lines) (some (rc, text)) = judge_patch rc text lines

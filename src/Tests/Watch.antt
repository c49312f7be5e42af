-- ===== src/Tests/Watch.antt =====
-- A server with ten signed releases, a pin to the newest or to the one before it, and patches that apply.
use binutils_mcs.Base.{
  ℕ, zero, suc, ◌≤◌, ◌≡◌, refl, ap, ◌∙◌, arith, true, false, Option, none, some, List, [], ◌∷◌,
  ◌++◌, ◌==◌, ltb, if◌then◌else◌, length, replicate, map, ok, err,
}
use binutils_mcs.Base.Bytes.{Bytes, codes, equal}
use binutils_mcs.Base.Int.{pos, negsuc}
use binutils_mcs.Base.Text.{
  Text, strip, lstrip, is_space, rev_onto, split, split_once, splitlines, is_break, contains,
}
use binutils_mcs.Base.Dict.{Dict, get, put, keys, member}
use binutils_mcs.Base.Scan.{digits_value, after, span, run_of}
use binutils_mcs.Watch.Releases.{
  parse_index, Pin, http, no_answer, read_pin, check_pin_against_index, newest_from, tarball_of,
  read_version, attempts,
}
use binutils_mcs.Watch.Releases.Fetch.{First, http-First}
use binutils_mcs.Watch.Releases.Linked.{IsReleased, parse_index-AreLinked}
use binutils_mcs.Watch.Log.{parse_patch_log, Log, log_lines}
use binutils_mcs.Watch.Patches.{clean, rejected, Applied, apply_patch, judge_patch, patch_shape}
use binutils_mcs.Watch.Patches.Verdicts.{IsJudged, apply_patch-IsJudged}
use binutils_mcs.Watch.Run.{
  World, nothing, Report, report, report_of, main, baseline_of, tarball_min_bytes, decide,
  fetch_tarball, fetch_signature, lstrip_bytes, apply_all, examine, patches,
}
use binutils_mcs.Watch.Run.Nothing.{SaysNothing, main-SaysNothing}
use binutils_mcs.Watch.Run.Reported.{IsReported, main-IsReported}

abbrev entry : Text → Text
entry v =
    codes "<a href=\"binutils-"
    ++ (v ++ (codes ".tar.xz\"> <a href=\"binutils-" ++ (v ++ codes ".tar.xz.sig\">\n")))

abbrev entries : List Text → Text
entries [] = codes "<a href=\"binutils-2.48.tar.xz\"> <a href=\"binutils-with-gold-2.44.tar.xz\">"
entries (v ∷ vs) = entry v ++ entries vs

abbrev page : Text
page = entries (
    codes "2.9"
    ∷ codes "2.39"
    ∷ codes "2.40"
    ∷ codes "2.41"
    ∷ codes "2.47"
    ∷ codes "2.42"
    ∷ codes "2.43"
    ∷ codes "2.44"
    ∷ codes "2.45"
    ∷ codes "2.46.1"
    ∷ [])

abbrev index_url : Text
index_url = codes "https://ftp.gnu.org/gnu/binutils/"

length-replicate : {A : Type 0} (n : ℕ) (a : A) → length (replicate n a) ≡ n
length-replicate zero a = refl
length-replicate (suc n) a = ap suc (length-replicate n a)

-- A tarball of the size that is asked for.
large : (n : ℕ) → tarball_min_bytes ≤ n → (b : Bytes) × (ltb (length b) tarball_min_bytes ≡ false)
large n h =
    (replicate n 0, ap (λ k. ltb k tarball_min_bytes) (length-replicate n 0) ∙ ground (arith, h))

tarball : (b : Bytes) × (ltb (length b) tarball_min_bytes ≡ false)
tarball = large 5000000 (omega arith)

abbrev sig : Bytes
sig = replicate 70 b'x'

abbrev patch_log : Text
patch_log = codes "patching file gas/configure.tgt\n"

abbrev world : Text → World
world version = record {
  has_makefile = true;
  print_port = (
    pos 0,
    codes "PORT_VERSION="
        ++ (version
            ++ (codes "\nPORT_URL=https://ftp.gnu.org/gnu/binutils/binutils-"
                ++ (version ++ codes ".tar.xz\nPORT_SHA256=ab\n"))),
  );
  page = λ url attempt. if attempt == 2 then some page else none;
  file = λ url attempt.
      if equal url (index_url ++ codes "binutils-2.47.tar.xz.sig")
      then some sig
      else some tarball.0;
  sha256 = λ b. codes "cd";
  untar = λ b. pos 0;
  is_dir = λ b name. equal name (codes "binutils-2.47");
  patch_lines = λ stem. some (codes "@@ -1 +1 @@" ∷ []);
  patch = λ stem. some (pos 0, patch_log);
}

abbrev pin : Text → Pin
pin v = record { version = v; url = index_url ++ (tarball_of v); sha256 = codes "ab" }

abbrev versions : List Text
versions =
    codes "2.9"
    ∷ codes "2.39"
    ∷ codes "2.40"
    ∷ codes "2.41"
    ∷ codes "2.47"
    ∷ codes "2.42"
    ∷ codes "2.43"
    ∷ codes "2.44"
    ∷ codes "2.45"
    ∷ codes "2.46.1"
    ∷ []

abbrev released : Dict Text
released = map (λ v. (v, tarball_of v)) versions

accepted : parse_index page (codes "2.47") ≡ ok released
unfolding parse_index get put keys after span run_of
accepted = refl

parse_index-AreLinked_example :
    (10 ≤ length released)
    × (member (codes "2.47") (keys released) ≡ true)
    × ((v name : Text)
        → get v released ≡ some name
        → (name ≡ codes "binutils-" ++ (v ++ codes ".tar.xz")) × IsReleased page v)
parse_index-AreLinked_example = parse_index-AreLinked page (codes "2.47") accepted

abbrev second : ℕ → Option Text
second attempt = if attempt == 2 then some page else none

http-First_example :
    ((k : ℕ) (a : Text) → 1 ≤ k → k ≤ 3 → First second 1 k a → http second ≡ ok a)
    × (((j : ℕ) → 1 ≤ j → j ≤ 3 → second j ≡ none) → http second ≡ err no_answer)
http-First_example = http-First second

abbrev slid : Text
slid =
    codes
      "patching file gas/configure.tgt\nHunk #1 succeeded at 12 with fuzz 2 (offset -3 lines).\nHunk #2 succeeded at 40.\nHunk #3 FAILED at 7.\n1 out of 3 hunks FAILED -- saving rejects\n"

abbrev slid_log : Log
slid_log = record {
  offsets =
      record {
        file = codes "gas/configure.tgt";
        hunk = codes "1";
        line = codes "12";
        offset = codes "-3";
      }
      ∷ [];
  failures = record { file = codes "gas/configure.tgt"; hunk = codes "3"; line = codes "7" } ∷ [];
  trouble = (codes "gas/configure.tgt", codes "1 out of 3 hunks FAILED -- saving rejects") ∷ [];
}

slid_parsed : parse_patch_log slid ≡ slid_log
unfolding log_lines splitlines is_break rev_onto is_space after span run_of lstrip
slid_parsed = refl

abbrev shape : List Text
shape =
    codes "--- a/gas/configure.tgt\t2026"
    ∷ codes "+++ b/gas/configure.tgt\t2026"
    ∷ codes "@@ -1 +1 @@"
    ∷ codes "@@ -9 +9 @@"
    ∷ []

abbrev slid_report : Applied
slid_report = record {
  rc = pos 1;
  verdict = rejected;
  log = slid_log;
  unnamed = false;
  files = codes "gas/configure.tgt" ∷ [];
  hunks = 2;
}

slid_judged : apply_patch (some shape) (some (pos 1, slid)) ≡ ok slid_report
unfolding apply_patch judge_patch log_lines patch_shape splitlines split split_once strip lstrip
    is_break rev_onto is_space after span run_of contains
slid_judged = refl

apply_patch-IsJudged_example : IsJudged (pos 1) slid slid_report
apply_patch-IsJudged_example = apply_patch-IsJudged shape (pos 1) slid slid_judged

-- A patch that signal 9 ended is called clean.
killed :
    apply_patch (some shape) (some (negsuc 8, []))
    ≡ ok (record {
      rc = negsuc 8;
      verdict = clean;
      log = record { offsets = []; failures = []; trouble = [] };
      unnamed = false;
      files = codes "gas/configure.tgt" ∷ [];
      hunks = 2;
    })
unfolding apply_patch judge_patch log_lines patch_shape splitlines split split_once strip lstrip
    is_break rev_onto is_space after span run_of contains
killed = refl

abbrev now : World
now = world (codes "2.47")

up_to_date : main now index_url [] ≡ ok (nothing (codes "2.47"))
unfolding main read_pin splitlines is_break split_once strip lstrip is_space rev_onto get put run_of
    span read_version check_pin_against_index baseline_of attempts parse_index keys after decide
    newest_from split digits_value
up_to_date = refl

main-SaysNothing_example : SaysNothing now index_url [] (codes "2.47")
main-SaysNothing_example = main-SaysNothing now index_url [] up_to_date

abbrev before : World
before = world (codes "2.46.1")

abbrev applied : Applied
applied = record {
  rc = pos 0;
  verdict = clean;
  log = record { offsets = []; failures = []; trouble = [] };
  unnamed = false;
  files = [];
  hunks = 1;
}

fetched :
    fetch_tarball before (index_url ++ codes "binutils-2.47.tar.xz") (codes "2.47") ≡ ok tarball.0
unfolding fetch_tarball attempts
fetched = rw tarball.1 refl

signed_well : fetch_signature before (index_url ++ codes "binutils-2.47.tar.xz.sig") ≡ ok sig
unfolding fetch_signature attempts lstrip_bytes
signed_well = refl

all_applied : apply_all before patches ≡ ok (applied ∷ applied ∷ [])
unfolding apply_all apply_patch judge_patch log_lines patch_shape splitlines split split_once strip
    lstrip is_break rev_onto is_space after span run_of contains
all_applied = refl

abbrev new_report : Report
new_report = report_of before (codes "2.47") sig tarball.0 (applied ∷ applied ∷ [])

examined :
    examine before index_url (codes "binutils-2.47.tar.xz") (codes "2.47") ≡ ok (report new_report)
unfolding examine
examined = rw (signed_well, fetched, all_applied) refl

newer :
    main before index_url []
    ≡ examine before index_url (codes "binutils-2.47.tar.xz") (codes "2.47")
unfolding main read_pin splitlines is_break split_once strip lstrip is_space rev_onto get put run_of
    span read_version check_pin_against_index baseline_of attempts parse_index keys after decide
    newest_from split digits_value
newer = refl

main-IsReported_example :
    (pin : Pin) × (baseline : Text) × (read_pin true (before.print_port) ≡ ok pin)
    × (baseline_of pin [] ≡ ok baseline)
    × IsReported before baseline new_report
main-IsReported_example = main-IsReported before index_url [] (newer ∙ examined)

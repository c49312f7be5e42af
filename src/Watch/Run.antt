-- ===== src/Watch/Run.antt =====
-- `main` of tb/upstream_watch.py, up to what it reports. What lies outside of the script is a record of
-- parameters: make, the server, the tools tar and patch, and SHA-256. The address has its slash at
-- the end and the pretended version is stripped; messages, files and the outputs of the workflow are left
-- out. A Malfunction is the exit status 3, all else is 0.
pub mod Nothing
pub mod Reported
use binutils_mcs.Base.{
  ℕ, zero, suc, ◌*◌, Bool, true, false, not, ◌&&◌, Option, none, some, List, [], ◌∷◌, ◌++◌, ltb,
  leb, if◌then◌else◌, length, Result, ok, err, ◌>>=◌,
}
use binutils_mcs.Base.Bytes.{Bytes, codes, equal, starts_with}
use binutils_mcs.Base.Int.{ℤ, pos}
use binutils_mcs.Base.Text.{Text, is_hex_blank}
use binutils_mcs.Base.Dict.{Dict, get, keys}
use binutils_mcs.Watch.Releases.{
  Malfunction, no_signature, markup, small_tarball, untar_failed, other_directory, bad_pretend,
  few_releases, vtuple, tuple_lt, is_version, parse_index, newest, Pin, read_pin,
  check_pin_against_index, http,
}
use binutils_mcs.Watch.Patches.{Verdict, clean, offsets, rejected, Applied, apply_patch, is_code}

-- The world that a run sees.
pub record World : Type 0 where
  -- whether there is a Makefile, and what `make print-port` gives
  pub has_makefile : Bool
  pub print_port : ℤ × Text
  -- what the server gives for an address at an attempt
  pub page : Text → ℕ → Option Text
  pub file : Text → ℕ → Option Bytes
  pub sha256 : Bytes → Text
  -- what tar returns, and which directories there are behind it
  pub untar : Bytes → ℤ
  pub is_dir : Bytes → Text → Bool
  -- the lines of a patch, and what applying it gives
  pub patch_lines : Text → Option (List Text)
  pub patch : Text → Option (ℤ × Text)

-- What is reported of a new release.
pub record Report : Type 0 where
  pub version : Text
  pub sig_size : ℕ
  pub sig_sha256 : Text
  pub size : ℕ
  pub sha256 : Text
  pub results : List Applied
  pub verdict : Verdict

pub data Outcome : Type 0 where
  nothing : Text → Outcome
  report : Report → Outcome

-- SIG_MIN_BYTES, SIG_MAX_BYTES and TARBALL_MIN_BYTES
abbrev pub sig_min_bytes : ℕ
sig_min_bytes = 64

abbrev pub sig_max_bytes : ℕ
sig_max_bytes = 4096

abbrev pub tarball_min_bytes : ℕ
tarball_min_bytes = 4 * 1024 * 1024

-- PATCHES
abbrev pub patches : List Text
patches = codes "additions" ∷ codes "modifications" ∷ []

-- WORST
abbrev pub rank : Verdict → ℕ
rank clean = 0
rank offsets = 1
rank rejected = 2

-- `max(…, key=lambda v: WORST[v])`: the first of the worst
unfoldable pub worst_from : Verdict → List Applied → Verdict
worst_from v [] = v
worst_from v (r ∷ rs) = worst_from (if ltb (rank v) (rank r.verdict) then r.verdict else v) rs

abbrev pub worst : List Applied → Verdict
worst [] = clean
worst (r ∷ rs) = worst_from r.verdict rs

-- `b.lstrip()` on bytes
unfoldable pub lstrip_bytes : Bytes → Bytes
unfolding is_hex_blank
lstrip_bytes [] = []
lstrip_bytes (c ∷ cs) = elim (is_hex_blank c) [ true ↦ lstrip_bytes cs | false ↦ c ∷ cs ]

-- What is compared against: `--pretend-version`, stripped, if it is not empty.
unfoldable pub baseline_of : Pin → Text → Result Malfunction Text
baseline_of pin [] = ok pin.version
baseline_of pin (c ∷ cs) = if is_version (c ∷ cs) then ok (c ∷ cs) else err bad_pretend

-- The largest of the releases, of which there is one.
abbrev pub newest_of : Dict Text → Result Malfunction Text
newest_of releases = elim (newest (keys releases)) [ none ↦ err few_releases | some v ↦ ok v ]

-- `releases[newest_version]`
abbrev pub name_of : Dict Text → Text → Text
name_of releases v = elim (get v releases) [ none ↦ [] | some name ↦ name ]

module _ (w : World) where
  -- The signature, which has to look like one.
  unfoldable pub fetch_signature : Text → Result Malfunction Bytes
  unfolding lstrip_bytes
  fetch_signature sig_url = do
    sig ← http (w.file sig_url)
    if not (leb sig_min_bytes (length sig) && leb (length sig) sig_max_bytes)
        then err no_signature
        else if starts_with (lstrip_bytes sig) (codes "<")
        then err markup
        else ok sig

  -- The tarball, unpacked.
  unfoldable pub fetch_tarball : Text → Text → Result Malfunction Bytes
  fetch_tarball tarball_url version = do
    tar ← http (w.file tarball_url)
    if ltb (length tar) tarball_min_bytes
        then err small_tarball
        else if not (is_code 0 (w.untar tar))
        then err untar_failed
        else if not (w.is_dir tar (codes "binutils-" ++ version))
        then err other_directory
        else ok tar

  -- The loop over the patches.
  unfoldable pub apply_all : List Text → Result Malfunction (List Applied)
  apply_all [] = ok []
  apply_all (stem ∷ stems) = do
    r ← apply_patch (w.patch_lines stem) (w.patch stem)
    rs ← apply_all stems
    ok (r ∷ rs)

  abbrev pub report_of : Text → Bytes → Bytes → List Applied → Report
  report_of version sig tar results = record {
    version = version;
    sig_size = length sig;
    sig_sha256 = w.sha256 sig;
    size = length tar;
    sha256 = w.sha256 tar;
    results = results;
    verdict = worst results;
  }

  -- A release that is newer.
  unfoldable pub examine : Text → Text → Text → Result Malfunction Outcome
  unfolding fetch_signature fetch_tarball apply_all
  examine index_url name version = do
    sig ← fetch_signature (index_url ++ (name ++ codes ".sig"))
    tar ← fetch_tarball (index_url ++ name) version
    results ← apply_all patches
    ok (report (report_of version sig tar results))

  -- `newest_version` against the baseline.
  unfoldable pub decide : Text → Text → Dict Text → Result Malfunction Outcome
  unfolding examine
  decide index_url baseline releases = do
    version ← newest_of releases
    if not (tuple_lt (vtuple baseline) (vtuple version))
        then ok (nothing version)
        else examine index_url (name_of releases version) version

  unfoldable pub main : Text → Text → Result Malfunction Outcome
  unfolding read_pin check_pin_against_index baseline_of parse_index decide
  main index_url pretend = do
    pin ← read_pin w.has_makefile w.print_port
    _ ← check_pin_against_index pin index_url
    baseline ← baseline_of pin pretend
    html ← http (w.page index_url)
    releases ← parse_index html pin.version
    decide index_url baseline releases

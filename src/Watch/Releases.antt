-- ===== src/Watch/Releases.antt =====
-- `read_pin`, `check_pin_against_index`, `http_get` and `parse_index` of tb/upstream_watch.py, and the order of
-- versions. The output of make and the answers of the server are parameters; messages are left out.
pub mod Order
pub mod Numbers
pub mod Signed
pub mod Spelling
pub mod Linked
pub mod Fetch
use binutils_mcs.Base.{
  ℕ, zero, suc, Bool, true, false, not, ◌||◌, Option, none, some, List, [], ◌∷◌, ◌++◌, map, ltb,
  ◌==◌, if◌then◌else◌, length, Result, ok, err, ◌>>=◌,
}
use binutils_mcs.Base.Bytes.{codes, equal, starts_with}
use binutils_mcs.Base.Int.{ℤ, pos}
use binutils_mcs.Base.Text.{Text, strip, split, split_once, splitlines, rev}
use binutils_mcs.Base.Dict.{Dict, get, put, keys, member}
use binutils_mcs.Base.Scan.{span, after, digits, run_of, digits_value, find_all}

-- What a Malfunction says.
pub data Malfunction : Type 0 where
  no_makefile print_failed not_printed bad_version other_name other_index : Malfunction
  no_answer few_releases pin_not_listed bad_pretend : Malfunction
  no_signature markup small_tarball untar_failed other_directory no_patch : Malfunction
  no_tool patch_trouble unread_offset unread_failure reversed : Malfunction

-- `vtuple`
abbrev pub vtuple : Text → List ℕ
vtuple v = map (digits_value 0) (split b'.' v)

-- `<` on tuples
unfoldable pub tuple_lt : List ℕ → List ℕ → Bool
tuple_lt a [] = false
tuple_lt [] (y ∷ b) = true
tuple_lt (x ∷ a) (y ∷ b) = if x == y then tuple_lt a b else ltb x y

-- `(?:\.[0-9]+)`
unfoldable pub dotted : Text → Option (Text × Text)
unfolding run_of
dotted [] = none
dotted (c ∷ cs) =
    if c == b'.'
    then elim (digits cs) [ none ↦ none | some (a, rest) ↦ some (b'.' ∷ a, rest) ]
    else none

-- `[0-9]+(?:\.[0-9]+){1,2}`
unfoldable pub read_version : Text → Option (Text × Text)
unfolding dotted run_of
read_version s = elim (digits s) [
  | none ↦ none
  | some (a, r) ↦ elim (dotted r) [
    | none ↦ none
    | some (b, r') ↦ elim (dotted r') [
      | none ↦ some (a ++ b, r')
      | some (c, r'') ↦ some (a ++ (b ++ c), r'')
    ]
  ]
]

-- RE_VERSION, on a text that was stripped
abbrev pub is_version : Text → Bool
is_version v = elim (read_version v) [ none ↦ false | some (w, rest) ↦ equal rest [] ]

abbrev pub tarball_of : Text → Text
tarball_of version = codes "binutils-" ++ (version ++ codes ".tar.xz")

-- RE_RELEASE: the name and the version
unfoldable pub match_release : Text → Option ((Text × Text) × Text)
unfolding after read_version
match_release s = elim (after (codes "href=\"binutils-") s) [
  | none ↦ none
  | some r ↦ elim (read_version r) [
    | none ↦ none
    | some (v, r') ↦ elim (after (codes ".tar.xz\"") r') [
      | none ↦ none
      | some rest ↦ some ((tarball_of v, v), rest)
    ]
  ]
]

-- RE_HREF
unfoldable pub match_href : Text → Option (Text × Text)
unfolding after run_of
match_href s = elim (after (codes "href=\"") s) [
  | none ↦ none
  | some r ↦ elim (run_of (λ c. not (c == b'"')) r) [
    | none ↦ none
    | some (v, r') ↦ elim (after (codes "\"") r') [ none ↦ none | some rest ↦ some (v, rest) ]
  ]
]

abbrev pub hrefs : Text → List Text
hrefs html = find_all match_href 0 html

abbrev pub tarballs : Text → List (Text × Text)
tarballs html = find_all match_release 0 html

-- The loop over the tarballs.
unfoldable pub signed : List Text → List (Text × Text) → Dict Text → Dict Text
signed known [] releases = releases
signed known ((name, version) ∷ ts) releases =
    signed known ts
      (if member (name ++ codes ".sig") known then put version name releases else releases)

-- MIN_RELEASES
abbrev pub min_releases : ℕ
min_releases = 10

unfoldable pub parse_index : Text → Text → Result Malfunction (Dict Text)
unfolding signed match_href match_release find_all
parse_index html pin_version =
    let releases = signed (hrefs html) (tarballs html) [] in
    if ltb (length releases) min_releases
    then err few_releases
    else if not (member pin_version (keys releases))
    then err pin_not_listed
    else ok releases

-- `max(releases, key=vtuple)`: the first of the largest
unfoldable pub newest_from : Text → List Text → Text
unfolding tuple_lt
newest_from best [] = best
newest_from best (v ∷ vs) = newest_from (if tuple_lt (vtuple best) (vtuple v) then v else best) vs

abbrev pub newest : List Text → Option Text
newest [] = none
newest (v ∷ vs) = some (newest_from v vs)

-- PORT_VERSION, PORT_URL and PORT_SHA256
pub record Pin : Type 0 where
  pub version : Text
  pub url : Text
  pub sha256 : Text

-- `pin`, line by line
unfoldable pub pin_lines : List Text → Dict Text → Dict Text
pin_lines [] d = d
pin_lines (line ∷ lines) d = elim (split_once b'=' line) [
  | none ↦ pin_lines lines d
  | some (key, value) ↦
      pin_lines lines
        (if starts_with (strip key) (codes "PORT_") then put (strip key) (strip value) d else d)
]

abbrev pub printed : Text → Dict Text → Result Malfunction Text
printed key d = elim (get key d) [ none ↦ err not_printed | some v ↦ ok v ]

-- Whether there is a Makefile, and what `make print-port` gave.
unfoldable pub read_pin : Bool → ℤ × Text → Result Malfunction Pin
unfolding pin_lines
read_pin false out = err no_makefile
read_pin true (pos zero, out) = do
  let d = pin_lines (splitlines out) []
  v ← printed (codes "PORT_VERSION") d
  u ← printed (codes "PORT_URL") d
  s ← printed (codes "PORT_SHA256") d
  if not (is_version v) then err bad_version else ok (record { version = v; url = u; sha256 = s })
read_pin true (rc, out) = err print_failed

-- `url.rpartition("/")` without the separator
unfoldable pub rpartition : Text → Text × Text
rpartition url = elim (split_once b'/' (rev url)) [
  | none ↦ ([], url)
  | some (a, b) ↦ (rev b, rev a)
]

unfoldable pub check_pin_against_index : Pin → Text → Result Malfunction (Unit {0})
unfolding rpartition
check_pin_against_index pin index_url =
    let (base, name) = rpartition pin.url in
    if not (equal name (tarball_of pin.version))
    then err other_name
    else if not (equal (base ++ codes "/") index_url)
    then err other_index
    else ok tt

-- The loop of `http_get` and `http_download`, over what each attempt gives.
unfoldable pub attempts {ℓ} : {A : Type ℓ} → (ℕ → Option A) → ℕ → ℕ → Result Malfunction A
attempts fetch attempt zero = err no_answer
attempts fetch attempt (suc left) = elim (fetch attempt) [
  | some a ↦ ok a
  | none ↦ attempts fetch (suc attempt) left
]

-- `tries=3`
abbrev pub http {ℓ} : {A : Type ℓ} → (ℕ → Option A) → Result Malfunction A
http fetch = attempts fetch 1 3

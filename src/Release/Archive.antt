-- ===== src/Release/Archive.antt =====
-- `parse_build_info` and `check_archive` of tb/release_manifest.py. Opening an archive is a parameter: the names that it
-- lists and a reader of its members, `none` where they raise. What the reader gives is decoded. Each check gives the
-- problems that it appends, and its exception is the problem that `main` makes of it.
pub mod Sound
use binutils_mcs.Base.{
  ℕ, ◌+◌, Bool, true, false, not, ◌&&◌, ◌||◌, ◌==◌, Option, none, some, List, [], ◌∷◌, ◌++◌, any,
  all, drop, length, if◌then◌else◌,
}
use binutils_mcs.Base.Bytes.{codes, equal, starts_with}
use binutils_mcs.Base.Text.{
  Text, rev, lstrip, strip, split, split_once, splitlines, universal, take_off_end, basename,
}
use binutils_mcs.Base.Dict.{Dict, get, put, member}

-- What `problems` collects; each is about a host or a patch.
pub data Problem : Type 0 where
  not_one : Text → ℕ → Problem
  unreadable other_top lacks_copying lacks_info : Text → Problem
  lacks_tool other_field : Text → Text → Problem
  no_patches : Problem
  patch_missing patch_empty : Text → Problem

-- What is open of an archive.
pub record Opened : Type 0 where
  pub names : List Text
  pub read : Text → Option Text

-- The arguments that a release claims.
pub record Claim : Type 0 where
  pub version : Text
  pub sha256 : Text
  pub commit : Text
  pub target : Text
  pub patches : List Text

-- `n.rstrip("/")`, on the text from its end
unfoldable pub drop_slashes : Text → Text
drop_slashes [] = []
drop_slashes (c ∷ cs) = if c == b'/' then drop_slashes cs else c ∷ cs

-- `[n.rstrip("/") for n in names if n.rstrip("/")]`
unfoldable pub kept_names : List Text → List Text
unfolding drop_slashes
kept_names [] = []
kept_names (n ∷ ns) =
    let name = rev (drop_slashes (rev n)) in
    let rest = kept_names ns in if equal name [] then rest else name ∷ rest

-- `n.split("/", 1)[0]`
abbrev pub top_of : Text → Text
top_of n = elim (split_once b'/' n) [ none ↦ n | some (a, b) ↦ a ]

-- `tops == {stem}`
abbrev pub is_only : Text → List Text → Bool
is_only stem [] = false
is_only stem (n ∷ ns) = all (λ m. equal (top_of m) stem) (n ∷ ns)

-- `stem`: the extensions of PACK_EXT taken off, one behind the other
abbrev pub stem_of : Text → Text
stem_of path = take_off_end (codes ".zip") (take_off_end (codes ".tar.gz") (basename path))

-- `{n[len(stem) + 1:] for n in names if n.startswith(stem + "/")}`
unfoldable pub inside_of : Text → List Text → List Text
inside_of stem [] = []
inside_of stem (n ∷ ns) =
    let rest = inside_of stem ns in
    if starts_with n (stem ++ codes "/") then drop (length stem + 1) n ∷ rest else rest

-- `present`
abbrev pub present : List Text → Text → Bool
present inside prefix = any (λ n. equal n prefix || equal n (prefix ++ codes ".exe")) inside

-- `fields`, line by line
unfoldable pub info_lines : List Text → Dict Text → Dict Text
info_lines [] d = d
info_lines (line ∷ lines) d = elim (split_once b':' line) [
  | none ↦ info_lines lines d
  | some (key, value) ↦ info_lines lines (put (strip key) (strip value) d)
]

abbrev pub parse_build_info : Text → Dict Text
parse_build_info text = info_lines (splitlines (universal text)) []

-- The four fields, with what they have to be.
abbrev pub wanted : Claim → Text → List (Text × Text)
wanted c host =
    (codes "upstream-binutils", c.version)
    ∷ (codes "upstream-sha256", c.sha256)
    ∷ (codes "port-commit", c.commit)
    ∷ (codes "host", host)
    ∷ []

-- `got != want` does not hold
abbrev pub is_field : Dict Text → Text × Text → Bool
is_field info (key, want) = elim (get key info) [ none ↦ false | some got ↦ equal got want ]

unfoldable pub check_fields : Text → Dict Text → List (Text × Text) → List Problem
check_fields host info [] = []
check_fields host info (f ∷ fs) =
    (if is_field info f then [] else other_field host f.0 ∷ []) ++ check_fields host info fs

abbrev pub tool_of : Claim → Text → Text
tool_of c tool = codes "bin/" ++ (c.target ++ (codes "-" ++ tool))

unfoldable pub check_tools : Claim → Text → List Text → List Text → List Problem
check_tools c host inside [] = []
check_tools c host inside (t ∷ ts) =
    (if present inside (tool_of c t) then [] else lacks_tool host t ∷ [])
    ++ check_tools c host inside ts

unfoldable pub check_info : Claim → Text → Option Text → List Problem
unfolding check_fields info_lines
check_info c host none = unreadable host ∷ []
check_info c host (some text) = check_fields host (parse_build_info text) (wanted c host)

-- The members of an archive under `stem`.
unfoldable pub check_inside : Claim → Text → Text → List Text → (Text → Option Text) → List Problem
unfolding check_tools check_info
check_inside c host stem inside read =
    check_tools c host inside (codes "as" ∷ codes "ld" ∷ [])
    ++ ((if any (λ n. starts_with n (codes "COPYING")) inside then [] else lacks_copying host ∷ [])
        ++ (if member (codes "BUILD-INFO.txt") inside
            then check_info c host (read (stem ++ codes "/BUILD-INFO.txt"))
            else lacks_info host ∷ []))

unfoldable pub check_archive : Claim → Text → Text → Option Opened → List Problem
unfolding kept_names inside_of check_inside
check_archive c path host none = unreadable host ∷ []
check_archive c path host (some o) =
    let stem = stem_of path in
    let names = kept_names o.names in
    if not (is_only stem names)
    then other_top host ∷ []
    else check_inside c host stem (inside_of stem names) o.read

-- ===== src/Release/Assets.antt =====
-- `hosts_from_workflow`, `find_named` and `main` of tb/release_manifest.py. The matrix that the YAML library reads, the
-- walk over the downloads, the files, the archive libraries and SHA-256 are a record of parameters. What is
-- written is a dictionary from names in the directory of the release; messages are left out.
pub mod Sums
pub mod Published
pub mod Status
use binutils_mcs.Base.{
  ℕ, Bool, true, false, Option, none, some, List, [], ◌∷◌, ◌++◌, if◌then◌else◌, length, map, Result,
  ok, err, ◌>>=◌,
}
use binutils_mcs.Base.Bytes.{Bytes, codes, equal}
use binutils_mcs.Base.Text.{join_lines, Text, text_lt, basename}
use binutils_mcs.Base.Dict.{Dict, get, put, member}
use binutils_mcs.Release.Archive.{
  Problem, not_one, no_patches, patch_missing, patch_empty, Opened, Claim, check_archive,
}

-- What lies outside of the script.
pub record Inputs : Type 0 where
  -- the entries of the matrix: `name`, and `pack` if it is there
  pub include : List (Text × Option Text)
  -- the directories under the downloads, with the names of their files
  pub walk : List (Text × List Text)
  pub file : Text → Text → Bytes
  pub open_archive : Text → Bytes → Option Opened
  pub patch : Text → Option Bytes
  pub sha256 : Bytes → Text

-- SystemExit of `hosts_from_workflow`
pub data BadMatrix : Type 0 where
  unknown_pack : Text → BadMatrix
  empty_matrix : BadMatrix

-- PACK_EXT
abbrev pub pack_ext : Dict Text
pack_ext = (codes "tar", codes ".tar.gz") ∷ (codes "zip", codes ".zip") ∷ []

-- `entry.get("pack", "tar")`
abbrev pub pack_of : Option Text → Text
pack_of none = codes "tar"
pack_of (some pack) = pack

unfoldable pub read_hosts : List (Text × Option Text) → Result BadMatrix (List (Text × Text))
unfolding get
read_hosts [] = ok []
read_hosts ((name, pack) ∷ entries) = elim (get (pack_of pack) pack_ext) [
  | none ↦ err (unknown_pack name)
  | some ext ↦ do rest ← read_hosts entries; ok ((name, ext) ∷ rest)
]

unfoldable pub hosts_from_workflow :
    List (Text × Option Text) → Result BadMatrix (List (Text × Text))
unfolding read_hosts
hosts_from_workflow include = do
  out ← read_hosts include
  elim out [ [] ↦ err empty_matrix | host ∷ hosts ↦ ok (host ∷ hosts) ]

unfoldable pub find_named : List (Text × List Text) → Text → List Text
find_named [] filename = []
find_named ((dirpath, filenames) ∷ dirs) filename =
    let hits = find_named dirs filename in
    if member filename filenames then dirpath ∷ hits else hits

-- What `main` has so far.
pub record Taken : Type 0 where
  pub problems : List Problem
  pub out : Dict Bytes
  pub assets : List Text

abbrev pub archive_name : Claim → Text × Text → Text
archive_name c (host, ext) = codes "i51-binutils-" ++ (c.version ++ (codes "-" ++ (host ++ ext)))

abbrev pub patch_name : Claim → Text → Text
patch_name c src = codes "binutils-" ++ (c.version ++ (codes "-mcs51-" ++ basename src))

-- A file that is copied, with the problems that are found in it.
abbrev pub take_file : Text → Bytes → List Problem → Taken → Taken
take_file name b ps s = record {
  problems = s.problems ++ ps;
  out = put name b s.out;
  assets = s.assets ++ name ∷ [];
}

abbrev pub refuse : Problem → Taken → Taken
refuse p s = record s { problems = s.problems ++ p ∷ [] }

-- `sorted(…)`, of which equal texts cannot be told apart
unfoldable pub insert_sorted : Text → List Text → List Text
insert_sorted t [] = t ∷ []
insert_sorted t (u ∷ us) = if text_lt u t then u ∷ insert_sorted t us else t ∷ u ∷ us

unfoldable pub sorted : List Text → List Text
unfolding insert_sorted
sorted [] = []
sorted (t ∷ ts) = insert_sorted t (sorted ts)

module _ (w : Inputs) (c : Claim) where
  -- A host of the matrix.
  unfoldable pub take_host : Text × Text → Taken → Taken
  unfolding find_named
  take_host (host, ext) s =
      let want = archive_name c (host, ext) in
      elim (find_named w.walk want) [
        | [] ↦ refuse (not_one host 0) s
        | dir ∷ [] ↦
            let b = w.file dir want in
            take_file want b (check_archive c want host (w.open_archive want b)) s
        | dir ∷ other ∷ dirs ↦ refuse (not_one host (length (dir ∷ other ∷ dirs))) s
      ]

  unfoldable pub take_hosts : List (Text × Text) → Taken → Taken
  unfolding take_host
  take_hosts [] s = s
  take_hosts (h ∷ hs) s = take_hosts hs (take_host h s)

  -- A patch.
  unfoldable pub take_patch : Text → Taken → Taken
  take_patch src s = elim (w.patch src) [
    | none ↦ refuse (patch_missing src) s
    | some [] ↦ refuse (patch_empty src) s
    | some (b ∷ bs) ↦ take_file (patch_name c src) (b ∷ bs) [] s
  ]

  unfoldable pub take_patches : List Text → Taken → Taken
  unfolding take_patch
  take_patches [] s = s
  take_patches (src ∷ srcs) s = take_patches srcs (take_patch src s)

  abbrev pub some_patch : Taken → Taken
  some_patch s = elim c.patches [ [] ↦ refuse no_patches s | src ∷ srcs ↦ s ]

  -- `sha256_of` of a file of the release, which is there
  abbrev pub sha_of : Dict Bytes → Text → Text
  sha_of out name = elim (get name out) [ none ↦ [] | some b ↦ w.sha256 b ]

  -- A line of SHA256SUMS.
  abbrev pub sum_line : Dict Bytes → Text → Text
  sum_line out name = sha_of out name ++ (codes "  " ++ name)

  abbrev pub sum_lines : Taken → List Text
  sum_lines s = map (sum_line s.out) (sorted s.assets)

  -- The end of `main`: the exit status and what is written.
  unfoldable pub publish : Taken → ℕ × Dict Bytes
  unfolding sorted join_lines
  publish s = elim s.problems [
    | p ∷ ps ↦ (1, s.out)
    | [] ↦ (0, put (codes "SHA256SUMS") (join_lines (sum_lines s)) s.out)
  ]

  unfoldable pub main : Result BadMatrix (ℕ × Dict Bytes)
  unfolding hosts_from_workflow take_hosts take_patches publish
  main = do
    hosts ← hosts_from_workflow w.include
    let s = take_hosts hosts (record { problems = []; out = []; assets = [] })
    ok (publish (take_patches c.patches (some_patch s)))

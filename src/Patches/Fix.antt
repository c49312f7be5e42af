-- ===== src/Patches/Fix.antt =====
-- `blob_hash`, `process` and `main` of tb/fixhunks.py. SHA-1 is a parameter. The hunks are those of the
-- lines as they were read: a header or an index line that is rewritten stands above what `walk`
-- reads next. A stale line is decoded for the message alone; that is left out.
pub mod Right
use binutils_mcs.Base.{
  ℕ, suc, ◌+◌, ◌-◌, Bool, true, false, not, ◌&&◌, ◌||◌, Option, none, some, List, [], ◌∷◌, ◌++◌,
  ◌==◌, if◌then◌else◌, length, take, drop, get_elem?, set, ltb, leb, all,
}
use binutils_mcs.Base.Bytes.{Bytes, codes, equal, starts_with}
use binutils_mcs.Base.Text.{Text, between}
use binutils_mcs.Base.Decimal.{decimal}
use binutils_mcs.Patches.Hunks.{Hunk, Walked, walk, walk_from, split_patch, hunk_body, hunk_prefix}

-- `b"\n".join(lines)`
unfoldable pub join_nl : List Bytes → Bytes
join_nl [] = []
join_nl (l ∷ []) = l
join_nl (l ∷ k ∷ ls) = l ++ 10 ∷ join_nl (k ∷ ls)

-- `b"@@ -0,0 +1,%d @@" % n`
abbrev pub header_of : ℕ → Bytes
header_of n = hunk_prefix ++ (decimal n ++ codes " @@")

abbrev pub is_lower_hex : ℕ → Bool
is_lower_hex c = between b'0' b'9' c || between b'a' b'f' c

-- The zeros at the head of a line, and the rest.
unfoldable pub zeros : Bytes → Bytes × Bytes
zeros [] = ([], [])
zeros (c ∷ cs) = let (a, b) = zeros cs in if c == b'0' then (c ∷ a, b) else ([], c ∷ cs)

-- `{7,40}`
abbrev pub seven_to_forty : Bytes → Bool
seven_to_forty cs = leb 7 (length cs) && leb (length cs) 40

-- INDEX_RE: the two groups
unfoldable pub match_index : Bytes → Option (Bytes × Bytes)
unfolding zeros
match_index line =
    let (old, rest) = zeros (drop 6 line) in
    let new = drop 2 rest in
    if starts_with line (codes "index ")
      && seven_to_forty old
      && starts_with rest (codes "..")
      && seven_to_forty new
      && all is_lower_hex new
    then some (old, new)
    else none

-- A stale line: its number, what it was and what is wanted.
pub record Stale : Type 0 where
  pub line : ℕ
  pub was : Bytes
  pub want : Bytes

-- `lines[i]`, where the index is known to be one
abbrev pub line_at : List Bytes → ℕ → Bytes
line_at lines i = elim (get_elem? lines i) [ none ↦ [] | some line ↦ line ]

-- The lines and what was found stale, in order.
abbrev pub Found : Type 0
Found = List Bytes × List Stale

abbrev pub replace : Bool → ℕ → Bytes → Found → Found
replace check i want (lines, stale) = (
  if check then lines else set lines i want,
  stale ++ record { line = i + 1; was = line_at lines i; want = want } ∷ [],
)

-- The header of a hunk.
unfoldable pub fix_header : Bool → Hunk → Found → Found
unfolding hunk_body
fix_header check h (lines, stale) =
    let want = header_of (length (hunk_body lines h.first h.past)) in
    if not (equal (line_at lines h.first) want)
    then replace check h.first want (lines, stale)
    else (lines, stale)

-- The end of `process`, where the walk may have raised.
unfoldable pub finish : Bool → Bool → Option ℕ → Found → ℕ × (List Stale × Option Bytes)
unfolding join_nl
finish check trailing (some n) (lines, stale) = (2, (stale, none))
finish check trailing none (lines, []) = (0, ([], none))
finish check trailing none (lines, s ∷ ss) = (
  0,
  (s ∷ ss, if check then none else some (join_nl lines ++ (if trailing then 10 ∷ [] else []))),
)

-- What is written stands under its path.
abbrev pub written : Text → Option Bytes → (Text → Option Bytes) → (Text → Option Bytes)
written path none files = files
written path (some out) files = λ f. if equal f path then some out else files f

module _ (sha1 : Bytes → Text) where
  unfoldable pub blob_hash : List Bytes → Text
  unfolding join_nl
  blob_hash body =
      let raw = join_nl body ++ 10 ∷ [] in
      sha1 (codes "blob " ++ (decimal (length raw) ++ (0 ∷ raw)))

  -- The index line, three above the header.
  unfoldable pub fix_index : Bool → Hunk → Found → Found
  unfolding match_index hunk_body blob_hash
  fix_index check h (lines, stale) =
      if ltb h.first 3 then (lines, stale) else elim (match_index (line_at lines (h.first - 3))) [
        | none ↦ (lines, stale)
        | some (old, new) ↦
            let got = take (length new) (blob_hash (hunk_body lines h.first h.past)) in
            if not (equal got new)
            then replace check (h.first - 3) (codes "index " ++ (old ++ (codes ".." ++ got)))
                (lines, stale)
            else (lines, stale)
      ]

  unfoldable pub fix_hunks : Bool → List Hunk → Found → Found
  unfolding fix_header fix_index
  fix_hunks check [] found = found
  fix_hunks check (h ∷ hs) found = fix_hunks check hs (fix_index check h (fix_header check h found))

  -- The exit code, what was stale, and what is written, if anything is.
  unfoldable pub process : Bool → Bytes → ℕ × (List Stale × Option Bytes)
  process check raw =
      let (lines, trailing) = split_patch raw in
      finish check trailing (walk lines).raised (fix_hunks check (walk lines).hunks (lines, []))

  -- The files by their paths; `none` where one cannot be read. The status, and the files behind the run.
  unfoldable pub run_paths :
      Bool → List Text → (Text → Option Bytes) → ℕ → Option (ℕ × (Text → Option Bytes))
  run_paths check [] files bad = some (bad, files)
  run_paths check (path ∷ paths) files bad = elim (files path) [
    | none ↦ none
    | some raw ↦
        let (rc, (stale, out)) = process check raw in
        let files' = written path out files in
        elim (rc == 0) [
          | false ↦ some (rc, files)
          | true ↦ elim stale [
            | [] ↦ run_paths check paths files' bad
            | s ∷ ss ↦ run_paths check paths files' (if check then 1 else 0)
          ]
        ]
  ]

  -- Without a path the script prints how it is called.
  unfoldable pub run_some :
      Bool → List Text → (Text → Option Bytes) → Option (ℕ × (Text → Option Bytes))
  unfolding run_paths
  run_some check [] files = some (2, files)
  run_some check (path ∷ paths) files = run_paths check (path ∷ paths) files 0

  unfoldable pub main : List Text → (Text → Option Bytes) → Option (ℕ × (Text → Option Bytes))
  unfolding run_some
  main [] files = some (2, files)
  main (arg ∷ args) files =
      if equal arg (codes "--check")
      then run_some true args files
      else run_some false (arg ∷ args) files

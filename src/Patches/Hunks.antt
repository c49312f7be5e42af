-- ===== src/Patches/Hunks.antt =====
-- `split_patch`, `walk`, `hunk_body` and `added_files` of tb/fixhunks.py. The generator `walk` is the list of what it
-- yields, with the line at which it raises, if it does.
pub mod Bounds
use binutils_mcs.Base.{
  ℕ, ◌+◌, ◌-◌, Bool, true, false, not, ◌&&◌, ◌||◌, Option, none, some, List, [], ◌∷◌, ◌++◌, ◌==◌,
  if◌then◌else◌, length, take, drop, Result, ok, err, ◌>>=◌,
}
use binutils_mcs.Base.Bytes.{Bytes, codes, equal, starts_with, slice}
use binutils_mcs.Base.Text.{split}
use binutils_mcs.Base.Dict.{Dict, put}

-- `lines[:-1]` where the last line is empty, and whether it was
unfoldable pub drop_last : List Bytes → List Bytes × Bool
drop_last [] = ([], false)
drop_last (l ∷ []) = if equal l [] then ([], true) else (l ∷ [], false)
drop_last (l ∷ k ∷ ls) = let (rest, dropped) = drop_last (k ∷ ls) in (l ∷ rest, dropped)

abbrev pub split_patch : Bytes → List Bytes × Bool
split_patch raw = drop_last (split 10 raw)

-- A hunk: the index of its header, the one past its body, and the file that it builds.
pub record Hunk : Type 0 where
  pub first : ℕ
  pub past : ℕ
  pub path : Option Bytes

-- What was yielded, and the line number of NotAllAdditions.
pub record Walked : Type 0 where
  pub hunks : List Hunk
  pub raised : Option ℕ

abbrev pub hunk_prefix : Bytes
hunk_prefix = codes "@@ -0,0 +1,"

-- A line of a hunk's body.
abbrev pub is_body : Bytes → Bool
is_body line = starts_with line (codes "+") || starts_with line (codes "\\")

-- PLUSPLUS_RE: what stands behind `+++ ` or `+++ b/`
abbrev pub behind_b : Bytes → Option Bytes
behind_b [] = none
behind_b (b ∷ slash ∷ c ∷ cs) =
    if b == b'b' && slash == b'/' then some (c ∷ cs) else some (b ∷ slash ∷ c ∷ cs)
behind_b cs = some cs

abbrev pub path_of : Option Bytes → Option Bytes
path_of none = none
path_of (some line) = if starts_with line (codes "+++ ") then behind_b (drop 4 line) else none

-- A hunk that is open ends at index `i`.
abbrev pub closed : Option (ℕ × Option Bytes) → ℕ → Walked → Walked
closed none i w = w
closed (some (first, path)) i w = record w {
  hunks = record { first = first; past = i; path = path } ∷ w.hunks;
}

-- Whether the line belongs to the hunk that is open.
abbrev pub goes_on : Option (ℕ × Option Bytes) → Bytes → Bool
goes_on none line = false
goes_on (some h) line = is_body line

-- `walk` from index `i` on, with the hunk that is open and the line before.
unfoldable pub walk_from : Option (ℕ × Option Bytes) → Option Bytes → ℕ → List Bytes → Walked
walk_from open' before i [] = closed open' i (record { hunks = []; raised = none })
walk_from open' before i (line ∷ lines) = elim (goes_on open' line) [
  | true ↦ walk_from open' (some line) (i + 1) lines
  | false ↦ elim (starts_with line (codes "@@ ")) [
    | false ↦ closed open' i (walk_from none (some line) (i + 1) lines)
    | true ↦ elim (starts_with line hunk_prefix) [
      | false ↦ closed open' i (record { hunks = []; raised = some (i + 1) })
      | true ↦ closed open' i (walk_from (some (i, path_of before)) (some line) (i + 1) lines)
    ]
  ]
]

abbrev pub walk : List Bytes → Walked
walk = walk_from none none 0

-- `[b[1:] for b in … if b.startswith(b"+")]`
unfoldable pub added : List Bytes → List Bytes
added [] = []
added (line ∷ lines) =
    if starts_with line (codes "+") then drop 1 line ∷ added lines else added lines

unfoldable pub hunk_body : List Bytes → ℕ → ℕ → List Bytes
unfolding added slice
hunk_body lines i j = added (slice lines (i + 1) j)

-- The loop of `added_files`; a file is its lines, and the error is the line of the hunk.
unfoldable pub build_files :
    List Bytes → List Hunk → Dict (List Bytes) → Result ℕ (Dict (List Bytes))
unfolding hunk_body
build_files lines [] out = ok out
build_files lines (h ∷ hs) out = elim h.path [
  | none ↦ err (h.first + 1)
  | some name ↦ build_files lines hs (put name (hunk_body lines h.first h.past) out)
]

abbrev pub raised_or : Option ℕ → Dict (List Bytes) → Result ℕ (Dict (List Bytes))
raised_or none out = ok out
raised_or (some n) out = err n

unfoldable pub added_files : Bytes → Result ℕ (Dict (List Bytes))
unfolding walk_from build_files
added_files raw =
    let lines = (split_patch raw).0 in
    let w = walk lines in do out ← build_files lines w.hunks []; raised_or w.raised out

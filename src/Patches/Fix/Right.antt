-- ===== src/Patches/Fix/Right.antt =====
-- What `fixhunks.py --check` has shown that reports nothing.
use binutils_mcs.Base.{◌-◌, ◌≤◌, ◌≡◌, Option, none, some, List, [], ◌∷◌, ◌++◌, length, take, All}
use binutils_mcs.Base.Bytes.{Bytes, codes}
use binutils_mcs.Base.Text.{Text}
use binutils_mcs.Base.Decimal.{decimal}
use binutils_mcs.Patches.Hunks.{Hunk, walk, split_patch, hunk_body}
use binutils_mcs.Patches.Fix.{match_index, line_at}

-- The header of a hunk counts its lines.
abbrev pub HeaderRight : List Bytes → Hunk → Type 0
HeaderRight lines h =
    line_at lines h.first
    ≡ codes "@@ -0,0 +1," ++ (decimal (length (hunk_body lines h.first h.past)) ++ codes " @@")

-- The text of the lines: each ends with a newline, and no line is an empty one.
abbrev pub text_of : List Bytes → Bytes
text_of [] = 10 ∷ []
text_of (l ∷ []) = l ++ 10 ∷ []
text_of (l ∷ k ∷ ls) = l ++ 10 ∷ text_of (k ∷ ls)

module _ (sha1 : Bytes → Text) (lines : List Bytes) (h : Hunk) where
  -- The name of a blob to git: the SHA-1 of the word blob, a blank, the number of bytes, a NUL and the bytes.
  abbrev pub blob_name : Bytes → Text
  blob_name raw = sha1 (98 ∷ 108 ∷ 111 ∷ 98 ∷ 32 ∷ (decimal (length raw) ++ (0 ∷ raw)))

  -- An index line three above the header begins with the name of the blob that the hunk builds.
  abbrev pub IndexRight : Type 0
  IndexRight =
      (old new : Bytes)
      → 3 ≤ h.first
      → match_index (line_at lines (h.first - 3)) ≡ some (old, new)
      → take (length new) (blob_name (text_of (hunk_body lines h.first h.past))) ≡ new

module _ (sha1 : Bytes → Text) (lines : List Bytes) where
  -- A hunk whose two lines are right.
  abbrev pub Right : Hunk → Type 0
  Right h = HeaderRight lines h × IndexRight sha1 lines h

module _ (sha1 : Bytes → Text) where
  -- The patch only adds files, and all its headers are right.
  abbrev pub FileRight : Bytes → Type 0
  FileRight raw =
      let lines = (split_patch raw).0 in
      ((walk lines).raised ≡ none) × All (Right sha1 lines) (walk lines).hunks

  abbrev pub PathRight : (Text → Option Bytes) → Text → Type 0
  PathRight files path = (raw : Bytes) × (files path ≡ some raw) × FileRight raw

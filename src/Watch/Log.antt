-- ===== src/Watch/Log.antt =====
-- `parse_patch_log` of tb/upstream_watch.py: what patch(1) prints, line by line. The lines of the lists that it collects are
-- records.
use binutils_mcs.Base.{
  Bool, true, false, ◌||◌, Option, none, some, List, [], ◌∷◌, ◌++◌, any, ◌==◌, if◌then◌else◌,
}
use binutils_mcs.Base.Bytes.{codes, starts_with}
use binutils_mcs.Base.Text.{Text, rstrip, splitlines}
use binutils_mcs.Base.Scan.{after, digits, run_of}

-- A hunk that landed at an offset, or that failed: the file, its number, its line and the offset.
pub record Slide : Type 0 where
  pub file : Text
  pub hunk : Text
  pub line : Text
  pub offset : Text

pub record Reject : Type 0 where
  pub file : Text
  pub hunk : Text
  pub line : Text

pub record Log : Type 0 where
  pub offsets : List Slide
  pub failures : List Reject
  pub trouble : List (Text × Text)

-- `(?: …)?` before the rest of the line
abbrev pub or_else : Text → Option Text → Text
or_else s none = s
or_else s (some r) = r

-- `\.?$`
abbrev pub ends : Text → Bool
ends [] = true
ends (c ∷ []) = c == b'.'
ends (c ∷ d ∷ s) = false

-- The number of a hunk, what is said of it, and a line.
unfoldable pub hunk_line : Text → Text → Option (Text × Text × Text)
unfolding after run_of
hunk_line words s = elim (after (codes "Hunk #") s) [
  | none ↦ none
  | some r ↦ elim (digits r) [
    | none ↦ none
    | some (hunk, r') ↦ elim (after words r') [
      | none ↦ none
      | some r'' ↦ elim (digits r'') [ none ↦ none | some (line, rest) ↦ some (hunk, line, rest) ]
    ]
  ]
]

-- `(?: with fuzz \d+)?`
unfoldable pub skip_fuzz : Text → Text
unfolding after run_of
skip_fuzz s = elim (after (codes " with fuzz ") s) [
  | none ↦ s
  | some r ↦ elim (digits r) [ none ↦ s | some (n, rest) ↦ rest ]
]

-- `-?\d+ lines?\)`, behind ` (offset `
unfoldable pub offset_of : Text → Option (Text × Text)
unfolding after run_of
offset_of s =
    let sign = if starts_with s (codes "-") then codes "-" else [] in
    elim (digits (or_else s (after (codes "-") s))) [
      | none ↦ none
      | some (n, r) ↦ elim (after (codes " line") r) [
        | none ↦ none
        | some r' ↦ elim (after (codes ")") (or_else r' (after (codes "s") r'))) [
          | none ↦ none
          | some rest ↦ some (sign ++ n, rest)
        ]
      ]
    ]

-- RE_OK: the hunk, the line and the offset, if there is one
unfoldable pub match_ok : Text → Option (Text × Text × Option Text)
unfolding hunk_line skip_fuzz offset_of
match_ok s = elim (hunk_line (codes " succeeded at ") s) [
  | none ↦ none
  | some (hunk, line, r) ↦
      let r' = skip_fuzz r in
      elim (after (codes " (offset ") r') [
        | none ↦ if ends r' then some (hunk, line, none) else none
        | some r'' ↦ elim (offset_of r'') [
          | none ↦ none
          | some (n, rest) ↦ if ends rest then some (hunk, line, some n) else none
        ]
      ]
]

-- RE_FAILED
unfoldable pub match_failed : Text → Option (Text × Text)
unfolding hunk_line
match_failed s = elim (hunk_line (codes " FAILED at ") s) [
  | none ↦ none
  | some (hunk, line, rest) ↦ if ends rest then some (hunk, line) else none
]

-- `\d+ out of \d+ hunks?`
unfoldable pub out_of : Text → Bool
unfolding after run_of
out_of s = elim (digits s) [
  | none ↦ false
  | some (n, r) ↦ elim (after (codes " out of ") r) [
    | none ↦ false
    | some r' ↦ elim (digits r') [
      | none ↦ false
      | some (m, rest) ↦ starts_with rest (codes " hunk")
    ]
  ]
]

-- RE_TROUBLE
unfoldable pub is_trouble : Text → Bool
unfolding out_of
is_trouble s =
    any (starts_with s) (
      codes "can't find file to patch"
      ∷ codes "The next patch would"
      ∷ codes "Reversed (or previously applied)"
      ∷ codes "Only garbage was found"
      ∷ codes "patch: ***"
      ∷ codes "Assume -R"
      ∷ codes "Skipping patch"
      ∷ [])
    || out_of s

-- RE_PATCHING
unfoldable pub match_patching : Text → Option Text
unfolding after
match_patching s = elim (after (codes "patching file ") s) [
  | some (c ∷ cs) ↦ some (c ∷ cs)
  | _ ↦ none
]

-- One line of the log: the file that is current behind it, and what is known.
unfoldable pub log_line : Text → Text → Log → Text × Log
unfolding match_patching match_ok match_failed is_trouble
log_line current line log = elim (match_patching line) [
  | some file ↦ (file, log)
  | none ↦ elim (match_ok line) [
    | some (hunk, at, some n) ↦ (
      current,
      record log {
        offsets = log.offsets ++ record { file = current; hunk = hunk; line = at; offset = n } ∷ [];
      },
    )
    | some (hunk, at, none) ↦ (current, log)
    | none ↦ elim (match_failed line) [
      | some (hunk, at) ↦ (
        current,
        record log {
          failures = log.failures ++ record { file = current; hunk = hunk; line = at } ∷ [];
        },
      )
      | none ↦ (
        current,
        if is_trouble line
            then record log { trouble = log.trouble ++ (current, line) ∷ [] }
            else log,
      )
    ]
  ]
]

unfoldable pub log_lines : Text → List Text → Log → Log
unfolding log_line
log_lines current [] log = log
log_lines current (line ∷ lines) log =
    let (current', log') = log_line current (rstrip line) log in log_lines current' lines log'

abbrev pub parse_patch_log : Text → Log
parse_patch_log log =
    log_lines (codes "?") (splitlines log) (record { offsets = []; failures = []; trouble = [] })

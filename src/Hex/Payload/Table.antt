-- ===== src/Hex/Payload/Table.antt =====
-- No line of the table is lost.
use binutils_mcs.Base.{
  ℕ, ◌+◌, ◌≡◌, List, [], ◌∷◌, arith, if◌then◌else◌, ok, >>=-eq-ok, Bool-cases, inl, inr, map,
}
use binutils_mcs.Base.Text.{Text, strip}
use binutils_mcs.Hex.Payload.{Entry, is_skipped, read_line, read_from, read_table}

-- The numbers of the lines that are neither blank nor a comment.
abbrev pub kept : ℕ → List Text → List ℕ
kept n [] = []
kept n (line ∷ lines) =
    if is_skipped (strip line) then kept (n + 1) lines else n ∷ kept (n + 1) lines

pub read_line-line : (n : ℕ) (line : Text) {e : Entry} → read_line n line ≡ ok e → e.line ≡ n
unfolding read_line
read_line-line n line h = ground arith

read_from-kept :
    (n : ℕ) (lines : List Text) {es : List Entry}
    → read_from n lines ≡ ok es
    → map (λ (e : Entry). e.line) es ≡ kept n lines
unfolding read_from
read_from-kept n [] {es} h = ground arith
read_from-kept n (line ∷ lines) {es} h = elim (Bool-cases (is_skipped (strip line))) [
  | inl skip ↦ rw skip (read_from-kept (n + 1) lines (rw (skip, read_from) at h))
  | inr keep ↦
      let (e, one, later) = >>=-eq-ok (read_line n (strip line)) _ (rw (keep, read_from) at h) in
      let (rest, more, same) = >>=-eq-ok (read_from (n + 1) lines) _ later in
      rw keep (cc (same, read_line-line n (strip line) one, read_from-kept (n + 1) lines more))
]

-- A table that is read has one entry for each line that is neither blank nor a comment, in order:
-- no damaged line makes it shorter.
pub read_table-kept :
    (lines : List Text) {es : List Entry}
    → read_table lines ≡ ok es
    → map (λ (e : Entry). e.line) es ≡ kept 1 lines
read_table-kept lines h = read_from-kept 1 lines h

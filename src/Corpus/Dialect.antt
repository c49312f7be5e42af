-- ===== src/Corpus/Dialect.antt =====
-- tb/dialect.py: Intel/ASEM-51 spelling to GNU as spelling, on text read as latin-1. Each regular
-- expression is a function over the line; `\b` is a change between word and other characters.
pub mod Plain
use binutils_mcs.Base.{
  ℕ, zero, suc, ◌+◌, ◌≡◌, refl, ap, Bool, true, false, not, ◌&&◌, ◌||◌, Option, none, some, List,
  [], ◌∷◌, ◌++◌, map, ltb, ◌==◌, if◌then◌else◌, length,
}
use binutils_mcs.Base.Bytes.{codes, equal}
use binutils_mcs.Base.Text.{Text, between, splitlines}
use binutils_mcs.Base.Scan.{span}
use binutils_mcs.Corpus.Branch.{is_hex}

-- `\w` on latin-1
unfoldable pub is_word : ℕ → Bool
is_word c =
    between b'0' b'9' c
    || between b'a' b'z' c
    || between b'A' b'Z' c
    || c == b'_'
    || c == 170
    || c == 178
    || c == 179
    || c == 181
    || c == 185
    || c == 186
    || between 188 190 c
    || between 192 214 c
    || between 216 246 c
    || between 248 255 c

-- `\b` behind a word character
abbrev at_boundary : Text → Bool
at_boundary [] = true
at_boundary (c ∷ cs) = not (is_word c)

-- The end of a match of the first rule, behind the digits.
unfoldable pub hex_at : ℕ → ℕ → Text → Text → Option (ℕ × Text)
unfolding is_word
hex_at sep d digits [] = none
hex_at sep d digits (h ∷ after) =
    if (sep == b'#' || sep == b',' || sep == b' ')
      && between b'0' b'9' d
      && (h == b'h' || h == b'H')
      && at_boundary after
    then some (sep, d ∷ digits)
    else none

-- `([#, ])([0-9][0-9A-Fa-f]*)[hH]\b` at the head of a text: the separator and the digits.
unfoldable pub match_hex : Text → Option (ℕ × Text)
unfolding hex_at span
match_hex (sep ∷ d ∷ cs) = hex_at sep d (span is_hex cs).0 (span is_hex cs).1
match_hex _ = none

-- The first rule; `skip` counts what is left of a match.
unfoldable pub sub_hex : ℕ → Text → Text
unfolding match_hex
sub_hex skip [] = []
sub_hex (suc skip) (c ∷ cs) = sub_hex skip cs
sub_hex zero (c ∷ cs) = elim (match_hex (c ∷ cs)) [
  | some (sep, digits) ↦ (sep ∷ b'0' ∷ b'x' ∷ digits) ++ sub_hex (length digits + 1) cs
  | none ↦ c ∷ sub_hex 0 cs
]

abbrev pub is_blank : ℕ → Bool
is_blank c = c == b' ' || c == 9

-- The second rule, with the blanks and what stands behind them.
unfoldable pub db_at : Text → Text → Text
unfolding is_word
db_at blanks (d ∷ b ∷ after) =
    if ((d == b'd' && b == b'b') || (d == b'D' && b == b'B')) && at_boundary after
    then blanks ++ (codes ".byte" ++ after)
    else blanks ++ (d ∷ b ∷ after)
db_at blanks rest = blanks ++ rest

-- `^([ \t]*)(?:db|DB)\b`
unfoldable pub sub_db : Text → Text
unfolding span db_at
sub_db line = db_at (span is_blank line).0 (span is_blank line).1

-- The third rule, likewise.
unfoldable pub end_at : Text → Text → Text
unfolding span
end_at blanks (e ∷ n ∷ d ∷ after) =
    if (equal (e ∷ n ∷ d ∷ []) (codes "end") || equal (e ∷ n ∷ d ∷ []) (codes "END"))
      && equal (span is_blank after).1 []
    then []
    else blanks ++ (e ∷ n ∷ d ∷ after)
end_at blanks rest = blanks ++ rest

-- `^[ \t]*(?:end|END)[ \t]*$`
unfoldable pub sub_end : Text → Text
unfolding end_at
sub_end line = end_at (span is_blank line).0 (span is_blank line).1

unfoldable pub translate_line : Text → Text
unfolding sub_hex sub_db sub_end
translate_line line = sub_end (sub_db (sub_hex 0 line))

-- `'\n'.join(lines)`
unfoldable pub join_nl : List Text → Text
join_nl [] = []
join_nl (l ∷ []) = l
join_nl (l ∷ k ∷ ls) = l ++ 10 ∷ join_nl (k ∷ ls)

unfoldable pub translate : Text → Text
unfolding translate_line join_nl
translate source = join_nl (map translate_line (splitlines source))

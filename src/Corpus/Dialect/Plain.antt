-- ===== src/Corpus/Dialect/Plain.antt =====
-- The lines that the rewriting of the dialect leaves alone.
use binutils_mcs.Base.{
  ℕ, ◌≡◌, ◌≢◌, refl, ap, ◌∙◌, ◌++◌, Bool, none, [], ◌∷◌, arith, All, Bool-cases, inl, inr,
}
use binutils_mcs.Base.Text.{Text}
use binutils_mcs.Base.Scan.{span}
use binutils_mcs.Corpus.Branch.{is_hex}
use binutils_mcs.Corpus.Dialect.{
  is_blank, hex_at, match_hex, sub_hex, db_at, end_at, sub_db, sub_end, translate_line,
}

-- The character is no `h` of either case.
abbrev pub NotH : ℕ → Type 0
NotH c = (c ≢ b'h') × (c ≢ b'H')

All-span : (P : ℕ → Type 0) (p : ℕ → Bool) (cs : Text) → All P cs → All P (span p cs).1
unfolding span
All-span P p [] h = tt
All-span P p (c ∷ cs) h = elim (Bool-cases (p c)) [
  | inl is ↦ rw is (All-span P p cs h.1)
  | inr is ↦ rw is h
]

hex_at-none : (sep d : ℕ) (digits rest : Text) → All NotH rest → hex_at sep d digits rest ≡ none
unfolding hex_at
hex_at-none sep d digits [] h = refl
hex_at-none sep d digits (c ∷ after) h = ground (arith, h.0.0, h.0.1)

match_hex-none : (cs : Text) → All NotH cs → match_hex cs ≡ none
unfolding match_hex
match_hex-none [] h = refl
match_hex-none (sep ∷ []) h = refl
match_hex-none (sep ∷ d ∷ cs) h =
    hex_at-none sep d _ (span is_hex cs).1 (All-span NotH is_hex cs h.1.1)

sub_hex-same : (cs : Text) → All NotH cs → sub_hex 0 cs ≡ cs
unfolding sub_hex
sub_hex-same [] h = refl
sub_hex-same (c ∷ cs) h =
    rw (match_hex-none (c ∷ cs) h, sub_hex) (ap (λ l. c ∷ l) (sub_hex-same cs h.1))

-- Behind its blanks the line begins with none of the words that are rewritten.
abbrev pub IsPlain : Text → Type 0
IsPlain (c ∷ cs) = (c ≢ b'd') × (c ≢ b'D') × (c ≢ b'e') × (c ≢ b'E')
IsPlain [] = Unit

span-append : (p : ℕ → Bool) (cs : Text) → (span p cs).0 ++ (span p cs).1 ≡ cs
unfolding span
span-append p [] = refl
span-append p (c ∷ cs) = elim (Bool-cases (p c)) [
  | inl is ↦ rw (is, span-append p cs)
  | inr is ↦ rw is
]

db_at-same : (blanks rest : Text) → IsPlain rest → db_at blanks rest ≡ blanks ++ rest
unfolding db_at
db_at-same blanks [] h = refl
db_at-same blanks (c ∷ []) h = refl
db_at-same blanks (c ∷ d ∷ cs) h = ground (arith, h.0, h.1)

end_at-same : (blanks rest : Text) → IsPlain rest → end_at blanks rest ≡ blanks ++ rest
unfolding end_at
end_at-same blanks [] h = refl
end_at-same blanks (c ∷ []) h = refl
end_at-same blanks (c ∷ d ∷ []) h = refl
end_at-same blanks (c ∷ d ∷ e ∷ cs) h = ground (arith, h.2, h.3)

sub_db-same : (line : Text) → IsPlain (span is_blank line).1 → sub_db line ≡ line
unfolding sub_db
sub_db-same line h = db_at-same _ (span is_blank line).1 h ∙ span-append is_blank line

sub_end-same : (line : Text) → IsPlain (span is_blank line).1 → sub_end line ≡ line
unfolding sub_end
sub_end-same line h = end_at-same _ (span is_blank line).1 h ∙ span-append is_blank line

-- A line without an `h` of either case, which does not begin with a `d` or an `e` of either case
-- behind its blanks, is assembled as it is written.
pub translate_line-same :
    (line : Text) → All NotH line → IsPlain (span is_blank line).1 → translate_line line ≡ line
unfolding translate_line
translate_line-same line h p = rw (sub_hex-same line h, sub_db-same line p, sub_end-same line p)

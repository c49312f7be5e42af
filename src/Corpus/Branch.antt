-- ===== src/Corpus/Branch.antt =====
-- `mismatch` and `resyntax` of tb/isa_check.py: how objdump prints a relative branch.
use binutils_mcs.Base.{
  ℕ, zero, suc, ◌+◌, ◌-◌, ◌%◌, Bool, false, not, ◌&&◌, ◌||◌, Option, none, some, [], ◌∷◌, ◌++◌, ltb,
  ◌==◌, if◌then◌else◌, length,
}
use binutils_mcs.Base.Text.{Text, between}
use binutils_mcs.Corpus.Disasm.{hex_value, first_word}
use binutils_mcs.Base.Scan.{span}

abbrev pub is_hex : ℕ → Bool
is_hex c = between b'0' b'9' c || between b'a' b'f' c || between b'A' b'F' c

-- REL at the head of a text: the sign and the digits behind `0x`.
unfoldable pub match_rel : Text → Option (ℕ × Text)
match_rel (dot ∷ sign ∷ z ∷ x ∷ cs) =
    let digits = (span is_hex cs).0 in
    if dot == b'.'
      && (sign == b'-' || sign == b'+')
      && z == b'0'
      && x == b'x'
      && ltb 0 (length digits)
    then some (sign, digits)
    else none
match_rel _ = none

-- `REL.search`
unfoldable pub search_rel : Text → Option (ℕ × Text)
unfolding match_rel
search_rel [] = none
search_rel (c ∷ cs) = elim (match_rel (c ∷ cs)) [ some m ↦ some m | none ↦ search_rel cs ]

-- `REL.sub`; `skip` counts what is left of a match.
unfoldable pub sub_rel : ℕ → Text → Text → Text
unfolding match_rel
sub_rel skip target [] = []
sub_rel (suc skip) target (c ∷ cs) = sub_rel skip target cs
sub_rel zero target (c ∷ cs) = elim (match_rel (c ∷ cs)) [
  | some (sign, digits) ↦ target ++ sub_rel (3 + length digits) target cs
  | none ↦ c ∷ sub_rel zero target cs
]

abbrev is_upper_hex : ℕ → Bool
is_upper_hex c = between b'0' b'9' c || between b'A' b'F' c

-- ADDR; the digits of the address
unfoldable pub match_addr : Text → Option Text
match_addr (z ∷ x ∷ a ∷ b ∷ c ∷ d ∷ []) =
    if z == b'0'
      && x == b'x'
      && is_upper_hex a
      && is_upper_hex b
      && is_upper_hex c
      && is_upper_hex d
    then some (a ∷ b ∷ c ∷ d ∷ [])
    else none
match_addr _ = none

-- `comment.split()[0] if comment else ''`, of a comment that was stripped
abbrev target_of : Text → Text
target_of comment = elim (first_word comment) [ none ↦ [] | some w ↦ w ]

-- `disp & 0xFFFF`, of the displacement with its sign
unfoldable pub masked : ℕ → ℕ → ℕ
masked sign n = if sign == b'-' then (65536 - n % 65536) % 65536 else n % 65536

-- Whether the displacement disagrees with the target.
unfoldable pub mismatch : Text → Text → Bool
unfolding search_rel match_addr masked
mismatch text comment = elim (search_rel text) [
  | none ↦ false
  | some (sign, digits) ↦ elim (match_addr (target_of comment)) [
    | none ↦ false
    | some target ↦ not (masked sign (hex_value 0 digits) == hex_value 0 target)
  ]
]

unfoldable pub resyntax : Text → Text → Option Text
unfolding search_rel sub_rel match_addr
resyntax text comment = elim (search_rel text) [
  | none ↦ some text
  | some m ↦ elim (match_addr (target_of comment)) [
    | none ↦ none
    | some t ↦ some (sub_rel zero (target_of comment) text)
  ]
]

-- ===== src/Base/Text.antt =====
-- Python's `str` as a list of code points: blanks, `strip`, and hexadecimal digits.
use Prim.Native.Nat.{ℕ, ◌+◌, ◌-◌, ◌*◌}
use mathlib.Core.Bool.{Bool, true, false, ◌&&◌, ◌||◌}
use mathlib.Core.List.{List, [], ◌∷◌, ◌++◌}
use mathlib.Core.Option.{Option, none, some}
use mathlib.Core.Path.{◌≡◌, refl}
use package.binutils_mcs.Base.Bytes.{starts_with}
use package.binutils_mcs.Base.Lists.{length, take}
use package.binutils_mcs.Base.Tests.{leb, ltb, ◌==◌, if◌then◌else◌}

abbrev pub Text : Type 0
Text = List ℕ

-- `lo <= c <= hi`
abbrev pub between : ℕ → ℕ → ℕ → Bool
between lo hi c = leb lo c && leb c hi

-- What `str.isspace` accepts, and so what `strip` and `split` cut at.
unfoldable pub is_space : ℕ → Bool
is_space c =
    between 0x09 0x0d c
    || between 0x1c 0x20 c
    || c == 0x85
    || c == 0xa0
    || c == 0x1680
    || between 0x2000 0x200a c
    || between 0x2028 0x2029 c
    || c == 0x202f
    || c == 0x205f
    || c == 0x3000

-- `s.lstrip()`
unfoldable pub lstrip : Text → Text
lstrip [] = []
lstrip (c ∷ cs) = let rest = lstrip cs in if is_space c then rest else c ∷ cs

unfoldable pub rev_onto : {A : Type 0} → List A → List A → List A
rev_onto acc [] = acc
rev_onto acc (c ∷ cs) = rev_onto (c ∷ acc) cs

abbrev pub rev : Text → Text
rev = rev_onto []

-- `s.rstrip()`
abbrev pub rstrip : Text → Text
rstrip s = rev (lstrip (rev s))

-- `s.strip()`
unfoldable pub strip : Text → Text
unfolding lstrip is_space rev_onto
strip s = rev (lstrip (rev (lstrip s)))

-- The value of a hexadecimal digit of either case.
unfoldable pub hex_digit : ℕ → Option ℕ
hex_digit c =
    if between b'0' b'9' c
    then some (c - b'0')
    else if between b'a' b'f' c
    then some (c - b'a' + 10)
    else if between b'A' b'F' c
    then some (c - b'A' + 10)
    else none

-- What `bytes.fromhex` skips between two bytes.
unfoldable pub is_hex_blank : ℕ → Bool
is_hex_blank c = between 0x09 0x0d c || c == 0x20

unfoldable pub hex_pair : ℕ → ℕ → Option (List ℕ) → Option (List ℕ)
hex_pair a b rest = elim (hex_digit a) [
  | none ↦ none
  | some h ↦ elim (hex_digit b) [
    | none ↦ none
    | some l ↦ elim rest [ none ↦ none | some bs ↦ some ((h * 16 + l) ∷ bs) ]
  ]
]

-- `bytes.fromhex`; `none` is its ValueError
unfoldable pub from_hex : Text → Option (List ℕ)
from_hex [] = some []
from_hex (a ∷ []) = if is_hex_blank a then some [] else none
from_hex (a ∷ b ∷ rest) = elim (is_hex_blank a) [
  | true ↦ from_hex (b ∷ rest)
  | false ↦ hex_pair a b (from_hex rest)
]

-- `line.split(sep, 1)`, or `none` where the separator does not stand in the line
unfoldable pub split_once : ℕ → Text → Option (Text × Text)
split_once sep [] = none
split_once sep (c ∷ cs) =
    let rest = split_once sep cs in
    if c == sep then some ([], cs) else elim rest [ none ↦ none | some (a, b) ↦ some (c ∷ a, b) ]

-- Where `str.splitlines` ends a line, behind a text layer that has
-- turned carriage returns into line feeds.
unfoldable pub is_break : ℕ → Bool
is_break c =
    c == 10
    || c == 11
    || c == 12
    || c == 28
    || c == 29
    || c == 30
    || c == 133
    || c == 8232
    || c == 8233

-- What the text layer makes of carriage returns: a line feed right behind one is dropped.
unfoldable pub universal_from : Bool → Text → Text
universal_from after_cr [] = []
universal_from after_cr (c ∷ cs) = elim (c == 13) [
  | true ↦ 10 ∷ universal_from true cs
  | false ↦ elim (after_cr && c == 10) [
    | true ↦ universal_from false cs
    | false ↦ c ∷ universal_from false cs
  ]
]

abbrev pub universal : Text → Text
universal = universal_from false

abbrev pub onto_line : ℕ → List Text → List Text
onto_line c [] = (c ∷ []) ∷ []
onto_line c (l ∷ ls) = (c ∷ l) ∷ ls

-- `splitlines()`: no empty line behind the last break
unfoldable pub splitlines : Text → List Text
unfolding is_break
splitlines [] = []
splitlines (c ∷ cs) = let rest = splitlines cs in if is_break c then [] ∷ rest else onto_line c rest

-- `s.split(sep)`
unfoldable pub split : ℕ → Text → List Text
split sep [] = [] ∷ []
split sep (c ∷ cs) = let rest = split sep cs in if c == sep then [] ∷ rest else onto_line c rest

-- `s.split()`: the runs between blanks; the flag is set inside a word.
unfoldable pub words_from : Bool → Text → List Text
unfolding is_space
words_from inside [] = if inside then [] ∷ [] else []
words_from inside (c ∷ cs) = elim (is_space c) [
  | true ↦ if inside then [] ∷ words_from false cs else words_from false cs
  | false ↦ onto_line c (words_from true cs)
]

abbrev pub words : Text → List Text
words = words_from false

-- `part in s`
unfoldable pub contains : Text → Text → Bool
contains part [] = starts_with [] part
contains part (c ∷ cs) = starts_with (c ∷ cs) part || contains part cs

-- `"\n".join(lines) + "\n"`
unfoldable pub join_lines : List Text → Text
join_lines [] = 10 ∷ []
join_lines (l ∷ []) = l ++ 10 ∷ []
join_lines (l ∷ m ∷ ls) = l ++ 10 ∷ join_lines (m ∷ ls)

-- `<` on texts
unfoldable pub text_lt : Text → Text → Bool
text_lt s [] = false
text_lt [] (d ∷ t) = true
text_lt (c ∷ s) (d ∷ t) = if c == d then text_lt s t else ltb c d

-- `s[: -len(ext)]` of a text that ends in it, and the text itself otherwise
abbrev pub take_off_end : Text → Text → Text
take_off_end ext s = if starts_with (rev s) (rev ext) then take (length s - length ext) s else s

-- `os.path.basename`
abbrev pub basename : Text → Text
basename path = elim (split_once b'/' (rev path)) [ none ↦ path | some (a, b) ↦ rev a ]

pub from_hex-pair :
    (a b : ℕ) (rest : Text)
    → is_hex_blank a ≡ false
    → from_hex (a ∷ b ∷ rest) ≡ hex_pair a b (from_hex rest)
unfolding from_hex
from_hex-pair a b rest h = rw (h, from_hex) refl

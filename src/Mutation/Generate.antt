-- ===== src/Mutation/Generate.antt =====
-- `mask_comments` and `spread` of tb/mutation/gen.py. The comments of C source lines are overwritten
-- with blanks; the index into a line is the rest of the line that it stands at.
pub mod Masked
pub mod Code
pub mod Spread
use binutils_mcs.Base.{
  ℕ, zero, suc, ◌+◌, ◌*◌, ◌/◌, Bool, true, false, ◌||◌, Option, none, some, List, [], ◌∷◌, map,
  ◌==◌, leb, length, get_elem?, if◌then◌else◌,
}
use binutils_mcs.Base.Int.{ℤ, pos, negsuc}
use binutils_mcs.Base.Bytes.{codes, starts_with}
use binutils_mcs.Base.Text.{Text}

-- Where the loop over a line stands: in code, in a comment, at the second character of its end, or in a literal
-- with so many characters behind this one.
pub data Mode : Type 0 where
  plain block closing : Mode
  literal : ℕ → Mode

-- `_literal_end` behind the quote: how many characters the literal goes on, if it closes.
unfoldable pub literal_end : ℕ → Text → Option ℕ
literal_end quote [] = none
literal_end quote (c ∷ []) = if c == b'\\' then none else if c == quote then some 1 else none
literal_end quote (c ∷ d ∷ cs) = elim (c == b'\\') [
  | true ↦ elim (literal_end quote cs) [ none ↦ none | some n ↦ some (2 + n) ]
  | false ↦ elim (c == quote) [
    | true ↦ some 1
    | false ↦ elim (literal_end quote (d ∷ cs)) [ none ↦ none | some n ↦ some (suc n) ]
  ]
]

-- A blank in place of each character.
abbrev pub blanks : Text → Text
blanks cs = map (λ c. b' ') cs

-- What is left of a literal of `n` more characters.
abbrev pub within : ℕ → Mode
within zero = plain
within (suc n) = literal n

abbrev pub is_quote : ℕ → Bool
is_quote c = c == b'"' || c == b'\''

-- The mode behind a character of code.
unfoldable pub behind_code : ℕ → Text → Mode
unfolding literal_end
behind_code c cs = elim (is_quote c) [
  | true ↦ elim (literal_end c cs) [ none ↦ plain | some n ↦ within n ]
  | false ↦ plain
]

-- A line, and whether a comment goes on behind it.
unfoldable pub mask_line : Mode → Text → Text × Bool
unfolding behind_code
mask_line plain [] = ([], false)
mask_line block [] = ([], true)
mask_line closing [] = ([], false)
mask_line (literal n) [] = ([], false)
mask_line closing (c ∷ cs) = let (m, b) = mask_line plain cs in (b' ' ∷ m, b)
mask_line (literal n) (c ∷ cs) = let (m, b) = mask_line (within n) cs in (c ∷ m, b)
mask_line block (c ∷ cs) = elim (starts_with (c ∷ cs) (codes "*/")) [
  | true ↦ let (m, b) = mask_line closing cs in (b' ' ∷ m, b)
  | false ↦ let (m, b) = mask_line block cs in (b' ' ∷ m, b)
]
mask_line plain (c ∷ cs) = elim (starts_with (c ∷ cs) (codes "/*")) [
  | true ↦ let (m, b) = mask_line block cs in (b' ' ∷ m, b)
  | false ↦ elim (starts_with (c ∷ cs) (codes "//")) [
    | true ↦ (blanks (c ∷ cs), false)
    | false ↦ let (m, b) = mask_line (behind_code c cs) cs in (c ∷ m, b)
  ]
]

unfoldable pub mask_from : Bool → List Text → List Text
unfolding mask_line
mask_from inblock [] = []
mask_from inblock (s ∷ ss) =
    let (m, b) = mask_line (if inblock then block else plain) s in m ∷ mask_from b ss

abbrev pub mask_comments : List Text → List Text
mask_comments = mask_from false

-- `[items[(k * n) // cap] for k in range(cap)]` from `k` on; `none` is the IndexError.
unfoldable pub pick_from {ℓ} : {A : Type ℓ} → List A → ℕ → ℕ → ℕ → ℕ → Option (List A)
pick_from items n cap k zero = some []
pick_from items n cap k (suc left) = elim (get_elem? items (k * n / cap)) [
  | none ↦ none
  | some x ↦ elim (pick_from items n cap (suc k) left) [ none ↦ none | some xs ↦ some (x ∷ xs) ]
]

unfoldable pub spread {ℓ} : {A : Type ℓ} → List A → ℤ → Option (List A)
unfolding pick_from
spread items (negsuc c) = some items
spread items (pos cap) =
    if cap == 0 || leb (length items) cap
    then some items
    else pick_from items (length items) cap 0 cap

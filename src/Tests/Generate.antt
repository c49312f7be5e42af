-- ===== src/Tests/Generate.antt =====
-- Lines of C with comments, literals and an apostrophe, and a sample of two out of five.
use binutils_mcs.Base.{
  ℕ, suc, ◌*◌, ◌/◌, ◌<◌, ◌≡◌, refl, some, List, [], ◌∷◌, arith, length, get_elem?,
}
use binutils_mcs.Base.Bytes.{codes}
use binutils_mcs.Base.Int.{pos}
use binutils_mcs.Base.Text.{Text}
use binutils_mcs.Mutation.Generate.{mask_comments, mask_from, spread}
use binutils_mcs.Mutation.Generate.Masked.{AreMasked, mask_comments-AreMasked}
use binutils_mcs.Mutation.Generate.Spread.{spread-Spaced}

abbrev lines : List Text
lines =
    codes "x = 1; /* one"
    ∷ codes "two */ y = \"/* no */\"; // three"
    ∷ codes "it's /* gone */ here"
    ∷ []

masked_lines :
    mask_comments lines
    ≡ codes "x = 1;       "
      ∷ codes "       y = \"/* no */\";         "
      ∷ codes "it's            here"
      ∷ []
unfolding mask_from
masked_lines = refl

-- A comment that opens is looked at for its end with its own star.
short_comment : mask_comments (codes "/*/ x" ∷ []) ≡ codes "    x" ∷ []
unfolding mask_from
short_comment = refl

mask_comments-AreMasked_example : AreMasked lines (mask_comments lines)
mask_comments-AreMasked_example = mask_comments-AreMasked lines

abbrev code : List Text
code = codes "if (c == '\\'')" ∷ codes "  it's / * 2;" ∷ []

abbrev five : List ℕ
five = 10 ∷ 11 ∷ 12 ∷ 13 ∷ 14 ∷ []

two_of_five : spread five (pos 2) ≡ some (10 ∷ 12 ∷ [])
unfolding spread
two_of_five = refl

spread-Spaced_example :
    (out : List ℕ) × (spread five (pos 2) ≡ some out)
    × (length out ≡ 2)
    × ((k : ℕ)
        → k < 2
        → (get_elem? out k ≡ get_elem? five (k * 5 / 2))
          × (k * 5 / 2 < 5)
          × (k * 5 / 2 < suc k * 5 / 2))
spread-Spaced_example = spread-Spaced five 2 (omega arith) (omega arith)

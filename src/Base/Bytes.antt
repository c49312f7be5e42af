-- ===== src/Base/Bytes.antt =====
-- Python's `bytes` and `bytearray` as lists of numbers: slices, slice assignment and comparison.
-- Indices are never negative here, so a slice is `data[a:b]` with both ends cut at the length.
use Prim.Native.Char.{code}
use Prim.Native.String.{String}
use package.binutils_mcs.Base.Tests.{ltb, leb, ◌==◌, if◌then◌else◌}
use package.binutils_mcs.Base.Lists.{length, get_elem?, take, drop, length-append, length-take}
use package.binutils_mcs.Base.Lists.{length-drop, get_elem?-none, get_elem?-append, get_elem?-take}
use package.binutils_mcs.Base.Lists.{get_elem?-drop, list_ext, All, All-append, All-take}
use package.binutils_mcs.Base.Lists.{All-drop}
use Prim.Native.Nat.{ℕ, ◌+◌, ◌-◌, ◌≤◌, max, min}
use mathlib.Core.Bool.{Bool, true, false, ◌&&◌}
use mathlib.Core.List.{List, [], ◌∷◌, ◌++◌}
use mathlib.Core.Logic.{◌↔◌, ◌⊎◌}
use mathlib.Core.Option.{none}
use mathlib.Core.Path.{◌≡◌, refl, ap}
use native.Mathlib.Omega.{arith}

abbrev pub Bytes : Type 0
Bytes = List ℕ

-- Code points of a text; every literal here is ASCII, so these are its bytes too.
abbrev pub codes : String → Bytes
codes String.[] = []
codes (String.◌∷◌ c s) = code c ∷ codes s

-- `a == b` on byte strings
abbrev pub equal : Bytes → Bytes → Bool
equal [] [] = true
equal (x ∷ xs) (y ∷ ys) = x == y && equal xs ys
equal _ _ = false

-- `s.startswith(prefix)`
abbrev pub starts_with : Bytes → Bytes → Bool
starts_with s [] = true
starts_with [] (p ∷ ps) = false
starts_with (c ∷ s) (p ∷ ps) = c == p && starts_with s ps

pub add_sub_cancel : (a i : ℕ) → a + i - a ≡ i
add_sub_cancel a i = omega arith

module _ {A : Type 0} where
  -- `data[a:b]`
  unfoldable pub slice : List A → ℕ → ℕ → List A
  slice xs a b = take (b - a) (drop a xs)

  -- `data[a:b] = v`
  unfoldable pub splice : List A → ℕ → ℕ → List A → List A
  splice xs a b v = take a xs ++ (v ++ drop (max a b) xs)

  pub length-slice : (xs : List A) (a b : ℕ) → length (slice xs a b) ≡ min (b - a) (length xs - a)
  unfolding slice
  length-slice xs a b = omega (arith, length-take (b - a) (drop a xs), length-drop a xs)

  pub get_elem?-slice :
      (xs : List A) (a b i : ℕ)
      → get_elem? (slice xs a b) i ≡ (if ltb i (b - a) then get_elem? xs (a + i) else none)
  unfolding slice
  get_elem?-slice xs a b i =
      ground (arith, get_elem?-take (b - a) (drop a xs) i, get_elem?-drop a xs i)

  -- A slice assignment of as many bytes as the slice holds keeps the length.
  pub length-splice :
      (xs : List A) (a b : ℕ) (v : List A)
      → length v ≡ length (slice xs a b)
      → length (splice xs a b v) ≡ length xs
  unfolding splice
  length-splice xs a b v h = omega (
    arith,
    length-append (take a xs) (v ++ drop (max a b) xs),
    length-append v (drop (max a b) xs),
    length-take a xs,
    length-drop (max a b) xs,
    length-slice xs a b,
  )

  -- ... and changes the bytes of the slice alone.
  pub get_elem?-splice :
      (xs : List A) (a b : ℕ) (v : List A) (i : ℕ)
      → length v ≡ length (slice xs a b)
      → get_elem? (splice xs a b v) i
        ≡ (if leb a i && ltb i (a + length v) then get_elem? v (i - a) else get_elem? xs i)
  unfolding splice
  get_elem?-splice xs a b v i h = ground (
    arith,
    get_elem?-append (take a xs) (v ++ drop (max a b) xs) i,
    get_elem?-append v (drop (max a b) xs) (i - length (take a xs)),
    get_elem?-take a xs i,
    get_elem?-drop (max a b) xs (i - length (take a xs) - length v),
    length-take a xs,
    length-slice xs a b,
    get_elem?-none xs i,
    get_elem?-none xs (max a b + (i - length (take a xs) - length v)),
  )

  pub slice-splice_self :
      (xs : List A) (a b : ℕ) (v : List A)
      → length v ≡ b - a
      → a ≤ b
      → b ≤ length xs
      → slice (splice xs a b v) a b ≡ v
  slice-splice_self xs a b v h k l = list_ext (slice (splice xs a b v) a b) v λ i. ground (
    arith,
    get_elem?-slice (splice xs a b v) a b i,
    get_elem?-splice xs a b v (a + i),
    get_elem?-none v i,
    ap (get_elem? v) (add_sub_cancel a i),
    length-slice xs a b,
  )

  pub slice-splice_other :
      (xs : List A) (a b c d : ℕ) (v : List A)
      → length v ≡ b - a
      → a ≤ b
      → b ≤ length xs
      → (b ≤ c) ⊎ (d ≤ a)
      → slice (splice xs a b v) c d ≡ slice xs c d
  slice-splice_other xs a b c d v h k l apart =
      list_ext (slice (splice xs a b v) c d) (slice xs c d) λ i. ground (
        arith,
        get_elem?-slice (splice xs a b v) c d i,
        get_elem?-slice xs c d i,
        get_elem?-splice xs a b v (c + i),
        length-slice xs a b,
      )

  pub All-slice : (P : A → Type 0) (xs : List A) (a b : ℕ) → All P xs → All P (slice xs a b)
  unfolding slice
  All-slice P xs a b h = All-take P (b - a) (drop a xs) (All-drop P a xs h)

  pub All-splice :
      (P : A → Type 0) (xs : List A) (a b : ℕ) (v : List A)
      → All P xs
      → All P v
      → All P (splice xs a b v)
  unfolding splice
  All-splice P xs a b v h k =
      All-append P (take a xs) (v ++ drop (max a b) xs) (All-take P a xs h)
        (All-append P v (drop (max a b) xs) k (All-drop P (max a b) xs h))

pub equal_iff : (a b : Bytes) → (equal a b ≡ true) ↔ (a ≡ b)
equal_iff (x ∷ a) (y ∷ b) = ground (arith, equal_iff a b)
equal_iff _ _ = ground arith

pub equal_refl : (a : Bytes) → equal a a ≡ true
equal_refl a = (equal_iff a a).1 refl

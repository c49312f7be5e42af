-- ===== src/Oracle/Classify.antt =====
-- `classify`: one walk over both images.
pub mod Balance
pub mod Residual
pub mod Sites
use Prim.Native.Nat.{bit_and}
use binutils_mcs.Base.{
  ℕ, suc, ◌+◌, Bool, true, false, ◌&&◌, List, [], ◌∷◌, ◌++◌, ◌==◌, if◌then◌else◌,
}
use binutils_mcs.Base.Bytes.{Bytes}

pub data Class : Type 0 where
  addr16 acall11 word16 pcode13 zero8 residual : Class

-- A residual byte: offset, 2001 byte, produced byte.
abbrev pub Residue : Type 0
Residue = ℕ × ℕ × ℕ

-- `counts` and `residual`
pub record Tally : Type 0 where
  pub addr16s : ℕ
  pub acall11s : ℕ
  pub word16s : ℕ
  pub pcode13s : ℕ
  pub zero8s : ℕ
  pub residuals : List Residue

abbrev pub none_yet : Tally
none_yet = record {
  addr16s = 0;
  acall11s = 0;
  word16s = 0;
  pcode13s = 0;
  zero8s = 0;
  residuals = [];
}

-- The class of a differing byte that has no byte behind it.
unfoldable pub class_last : ℕ → Class
class_last a = if a == 0x00 then zero8 else residual

-- The class of a differing byte `a` against `b`, with `a'` against `b'` behind it: the ladder of
-- the loop, where `pair` is `a == b'`.
unfoldable pub class_of : ℕ → ℕ → ℕ → ℕ → Class
unfolding class_last
class_of a a' b b' =
    if a == b' && a' == 0x00
    then addr16
    else if a == b' && a' == b
    then word16
    else if a == b' && a' == bit_and b 0xe0
    then acall11
    else if a == b' && a' == bit_and b 0x1f
    then pcode13
    else class_last a

-- `i += 2` or `i += 1`
abbrev pub is_pair : Class → Bool
is_pair zero8 = false
is_pair residual = false
is_pair _ = true

unfoldable pub tally : Class → ℕ → ℕ → ℕ → Tally → Tally
tally addr16 i a b t = record t { addr16s = t.addr16s + 1 }
tally acall11 i a b t = record t { acall11s = t.acall11s + 1 }
tally word16 i a b t = record t { word16s = t.word16s + 1 }
tally pcode13 i a b t = record t { pcode13s = t.pcode13s + 1 }
tally zero8 i a b t = record t { zero8s = t.zero8s + 1 }
tally residual i a b t = record t { residuals = t.residuals ++ (i, a, b) ∷ [] }

-- The loop from offset `i` on, over what is left of the two images.
unfoldable pub walk : ℕ → Bytes → Bytes → Tally → Tally
unfolding tally
walk i (a ∷ a' ∷ os) (b ∷ b' ∷ ps) t = elim (a == b) [
  | true ↦ walk (i + 1) (a' ∷ os) (b' ∷ ps) t
  | false ↦ elim (is_pair (class_of a a' b b')) [
    | true ↦ walk (i + 2) os ps (tally (class_of a a' b b') i a b t)
    | false ↦ walk (i + 1) (a' ∷ os) (b' ∷ ps) (tally (class_of a a' b b') i a b t)
  ]
]
walk i (a ∷ os) (b ∷ ps) t = if a == b then t else tally (class_last a) i a b t
walk i _ _ t = t

unfoldable pub classify : Bytes → Bytes → Tally
unfolding walk class_of class_last
classify oracle produced = walk 0 oracle produced none_yet

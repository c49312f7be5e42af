-- ===== src/Oracle/Classify/Sites.antt =====
-- The documented defects, one by one: images made of them are classified as what they are.
use Prim.Native.Nat.{bit_and}
use binutils_mcs.Base.{
  ℕ, ◌+◌, ◌≡◌, ◌≢◌, refl, sym, ◌∙◌, ap, true, false, Option, none, some, List, [], ◌∷◌, ◌++◌, arith,
  ◌==◌, ==_iff,
}
use binutils_mcs.Base.Bytes.{Bytes}
use binutils_mcs.Oracle.Classify.{
  Class, addr16, acall11, word16, pcode13, zero8, residual, Tally, none_yet, class_of, class_last,
  is_pair, tally, walk, classify,
}

-- A place of a ROM: bytes that both toolchains agree on, a 16-bit field `hi lo` that 2001 wrote in
-- one of its four ways, a byte that it left at zero, and a byte that differs for another reason.
pub data Site : Type 0 where
  same : ℕ → Site
  field16 : Class → ℕ → ℕ → Site
  zeroed : ℕ → Site
  moved : ℕ → ℕ → Site

-- What the port writes.
abbrev pub isa : List Site → Bytes
isa [] = []
isa (same b ∷ rest) = b ∷ isa rest
isa (field16 c hi lo ∷ rest) = hi ∷ lo ∷ isa rest
isa (zeroed b ∷ rest) = b ∷ isa rest
isa (moved a b ∷ rest) = b ∷ isa rest

-- The second byte that 2001 wrote: 0, the high byte, or some of its bits.
abbrev pub second : Class → ℕ → ℕ
second word16 hi = hi
second acall11 hi = bit_and hi 0xe0
second pcode13 hi = bit_and hi 0x1f
second _ hi = 0x00

-- What 2001 wrote.
abbrev pub wrote : List Site → Bytes
wrote [] = []
wrote (same b ∷ rest) = b ∷ wrote rest
wrote (field16 c hi lo ∷ rest) = lo ∷ second c hi ∷ wrote rest
wrote (zeroed b ∷ rest) = 0x00 ∷ wrote rest
wrote (moved a b ∷ rest) = a ∷ wrote rest

abbrev pub first : Bytes → Option ℕ
first [] = none
first (b ∷ bs) = some b

-- The defect shows, and no defect that the code tests before it shows in the same way.
abbrev pub Shows : Class → ℕ → Type 0
Shows addr16 hi = Unit
Shows word16 hi = hi ≢ 0
Shows acall11 hi = (bit_and hi 0xe0 ≢ 0) × (bit_and hi 0xe0 ≢ hi)
Shows pcode13 hi =
    (bit_and hi 0x1f ≢ 0) × (bit_and hi 0x1f ≢ hi) × (bit_and hi 0x1f ≢ bit_and hi 0xe0)
Shows _ hi = ⊥

-- A single byte is told from the first of a pair by the byte behind it.
abbrev pub IsClear : List Site → Type 0
IsClear [] = Unit
IsClear (same b ∷ rest) = IsClear rest
IsClear (field16 c hi lo ∷ rest) = ((lo ≢ hi) × Shows c hi) × IsClear rest
IsClear (zeroed b ∷ rest) = ((b ≢ 0) × (first (isa rest) ≢ some 0)) × IsClear rest
IsClear (moved a b ∷ rest) = ((a ≢ b) × (a ≢ 0) × (first (isa rest) ≢ some a)) × IsClear rest

-- One more of a class in the account, apart from a residual byte.
abbrev pub booked : Class → Tally → Tally
booked addr16 t = record t { addr16s = t.addr16s + 1 }
booked word16 t = record t { word16s = t.word16s + 1 }
booked acall11 t = record t { acall11s = t.acall11s + 1 }
booked pcode13 t = record t { pcode13s = t.pcode13s + 1 }
booked zero8 t = record t { zero8s = t.zero8s + 1 }
booked residual t = t

-- A residual byte listed: its offset, and what stands there in both images.
abbrev pub listed : ℕ → ℕ → ℕ → Tally → Tally
listed i a b t = record t { residuals = t.residuals ++ (i, a, b) ∷ [] }

tally-booked : (c : Class) (i a b hi : ℕ) (t : Tally) → Shows c hi → tally c i a b t ≡ booked c t
unfolding tally
tally-booked addr16 i a b hi t s = refl
tally-booked word16 i a b hi t s = refl
tally-booked acall11 i a b hi t s = refl
tally-booked pcode13 i a b hi t s = refl
tally-booked zero8 i a b hi t s = absurd s
tally-booked residual i a b hi t s = absurd s

tally-zero8 : (i a b : ℕ) (t : Tally) → tally zero8 i a b t ≡ booked zero8 t
unfolding tally
tally-zero8 i a b t = refl

tally-residual : (i a b : ℕ) (t : Tally) → tally residual i a b t ≡ listed i a b t
unfolding tally
tally-residual i a b t = refl

-- The sites counted, from offset `i` on.
abbrev pub counted : ℕ → List Site → Tally → Tally
counted i [] t = t
counted i (same b ∷ rest) t = counted (i + 1) rest t
counted i (field16 c hi lo ∷ rest) t = counted (i + 2) rest (booked c t)
counted i (zeroed b ∷ rest) t = counted (i + 1) rest (booked zero8 t)
counted i (moved a b ∷ rest) t = counted (i + 1) rest (listed i a b t)

-- Both images end here, or both go on.
abbrev Aligned : Bytes → Bytes → Type 0
Aligned [] [] = Unit
Aligned (a ∷ os) (b ∷ ps) = Unit
Aligned _ _ = ⊥

sites-Aligned : (rest : List Site) → Aligned (wrote rest) (isa rest)
sites-Aligned [] = tt
sites-Aligned (same b ∷ rest) = tt
sites-Aligned (field16 c hi lo ∷ rest) = tt
sites-Aligned (zeroed b ∷ rest) = tt
sites-Aligned (moved a b ∷ rest) = tt

class_of-pair :
    (c : Class) (hi lo : ℕ)
    → lo ≢ hi
    → Shows c hi
    → (class_of lo (second c hi) hi lo ≡ c) × (is_pair c ≡ true)
unfolding class_of
class_of-pair addr16 hi lo h s = ground arith
class_of-pair word16 hi lo h s = ground arith
class_of-pair acall11 hi lo h s = ground arith
class_of-pair pcode13 hi lo h s = ground arith
class_of-pair zero8 hi lo h s = absurd s
class_of-pair residual hi lo h s = absurd s

walk-same :
    (i b : ℕ) (os ps : Bytes) (t : Tally)
    → Aligned os ps
    → walk i (b ∷ os) (b ∷ ps) t ≡ walk (i + 1) os ps t
unfolding walk
walk-same i b [] [] t h = let equal : (b == b) ≡ true = (==_iff b b).1 refl in rw equal refl
walk-same i b (a' ∷ os) (b' ∷ ps) t h =
    let equal : (b == b) ≡ true = (==_iff b b).1 refl in rw (equal, walk) refl
walk-same i b [] (b' ∷ ps) t h = absurd h
walk-same i b (a' ∷ os) [] t h = absurd h

class_of-single : (a a' b b' : ℕ) → b' ≢ a → class_of a a' b b' ≡ class_last a
unfolding class_of
class_of-single a a' b b' h = ground arith

class_last-single : (a : ℕ) → is_pair (class_last a) ≡ false
unfolding class_last
class_last-single a = ground arith

walk-single :
    (i a b : ℕ) (os ps : Bytes) (t : Tally)
    → Aligned os ps
    → a ≢ b
    → first ps ≢ some a
    → walk i (a ∷ os) (b ∷ ps) t ≡ walk (i + 1) os ps (tally (class_last a) i a b t)
unfolding walk
walk-single i a b [] [] t al h n = let differ : (a == b) ≡ false = ground arith in rw differ refl
walk-single i a b (a' ∷ os) (b' ∷ ps) t al h n =
    let differ : (a == b) ≡ false = ground arith in
    let single = class_of-single a a' b b' (λ e. n (ap {B = Option ℕ} some e)) in
    let one : is_pair (class_of a a' b b') ≡ false = ap is_pair single ∙ class_last-single a in
    rw (differ, walk)
      (rw (one, walk) (ap (λ k. walk (i + 1) (a' ∷ os) (b' ∷ ps) (tally k i a b t)) single))
walk-single i a b [] (b' ∷ ps) t al h n = absurd al
walk-single i a b (a' ∷ os) [] t al h n = absurd al

walk-field16 :
    (i hi lo : ℕ) (c : Class) (rest : List Site) (t : Tally)
    → lo ≢ hi
    → Shows c hi
    → walk i (lo ∷ second c hi ∷ wrote rest) (hi ∷ lo ∷ isa rest) t
      ≡ walk (i + 2) (wrote rest) (isa rest) (tally c i lo hi t)
unfolding walk
walk-field16 i hi lo c rest t h s =
    let differ : (lo == hi) ≡ false = ground arith in
    let (found, two) = class_of-pair c hi lo h s in
    let pair : is_pair (class_of lo (second c hi) hi lo) ≡ true = ap is_pair found ∙ two in
    rw (differ, walk)
      (rw (pair, walk) (ap (λ k. walk (i + 2) (wrote rest) (isa rest) (tally k i lo hi t)) found))

class_last-other : (a : ℕ) → a ≢ 0 → class_last a ≡ residual
unfolding class_last
class_last-other a h = ground arith

walk-counted :
    (i : ℕ) (sites : List Site) (t : Tally)
    → IsClear sites
    → walk i (wrote sites) (isa sites) t ≡ counted i sites t
walk-counted i [] t h = unfold walk in refl
walk-counted i (same b ∷ rest) t h =
    walk-same i b (wrote rest) (isa rest) t (sites-Aligned rest) ∙ walk-counted (i + 1) rest t h
walk-counted i (field16 c hi lo ∷ rest) t h =
    walk-field16 i hi lo c rest t h.0.0 h.0.1
    ∙ ap (walk (i + 2) (wrote rest) (isa rest)) (tally-booked c i lo hi hi t h.0.1)
    ∙ walk-counted (i + 2) rest (booked c t) h.1
walk-counted i (zeroed b ∷ rest) t h =
    let zero_last : class_last 0 ≡ zero8 = unfold class_last in refl in
    rw zero_last at
      (walk-single i 0 b (wrote rest) (isa rest) t (sites-Aligned rest) (λ e. h.0.0 (sym e)) h.0.1)
    ∙ ap (walk (i + 1) (wrote rest) (isa rest)) (tally-zero8 i 0 b t)
    ∙ walk-counted (i + 1) rest (booked zero8 t) h.1
walk-counted i (moved a b ∷ rest) t h =
    let other : class_last a ≡ residual = class_last-other a h.0.1 in
    walk-single i a b (wrote rest) (isa rest) t (sites-Aligned rest) h.0.0 h.0.2
    ∙ rw other (
        ap (walk (i + 1) (wrote rest) (isa rest)) (tally-residual i a b t)
        ∙ walk-counted (i + 1) rest (listed i a b t) h.1)

-- A ROM whose 2001 image differs only by the documented defects and by moved bytes, wherever each
-- defect can be told from the others, is classified as built: the counts of the five classes are those of the
-- sites, and the residual bytes are the moved ones, each with its offset and both bytes.
pub classify-counted :
    (sites : List Site)
    → IsClear sites
    → classify (wrote sites) (isa sites) ≡ counted 0 sites none_yet
unfolding classify
classify-counted sites h = walk-counted 0 sites none_yet h

-- ===== src/Elf/Convert/Fields.antt =====
-- What one rewritten field, and a row of them, leave of the data.
use binutils_mcs.Base.{
  ℕ, ◌+◌, ◌≤◌, ◌<◌, ◌^◌, ◌≡◌, refl, ◌∙◌, ap, ◌⊎◌, inl, inr, List, [], ◌∷◌, arith, ok, Returns,
  Returns-bind, length, All,
}
use binutils_mcs.Base.Bytes.{
  Bytes, slice, splice, length-slice, length-splice, slice-splice_self, slice-splice_other,
  All-slice, All-splice,
}
use binutils_mcs.Elf.Struct.{
  IsByte, be_value, le_value, unpack_be, pack_le, length-pack_le, pack_le-IsByte, le_value-pack_le,
  be_value-lt, signed, pattern_of,
}
use binutils_mcs.Elf.Convert.{swap, swap_signed, swap_fields}

-- The field of `w` bytes at `off`, read in either order.
abbrev pub big : ℕ → ℕ → Bytes → ℕ
big w off d = be_value 0 (slice d off (off + w))

abbrev pub little : ℕ → ℕ → Bytes → ℕ
little w off d = le_value (slice d off (off + w))

abbrev pub sum : List ℕ → ℕ
sum [] = 0
sum (w ∷ ws) = w + sum ws

-- Nothing but bytes from `a` to `b` differs.
pub record Rewrites (a b : ℕ) (d out : Bytes) : Type 0 where
  pub same_length : length out ≡ length d
  pub still_bytes : All IsByte d → All IsByte out
  pub elsewhere : (c e : ℕ) → (b ≤ c) ⊎ (e ≤ a) → slice out c e ≡ slice d c e

pub unpack_be-ok :
    (w off : ℕ) (d : Bytes)
    → off + w ≤ length d
    → unpack_be w (slice d off (off + w)) ≡ ok (big w off d)
unfolding unpack_be
unpack_be-ok w off d h = ground (arith, length-slice d off (off + w))

pub splice-Rewrites :
    (w off v : ℕ) (d : Bytes)
    → off + w ≤ length d
    → Rewrites off (off + w) d (splice d off (off + w) (pack_le w v))
splice-Rewrites w off v d h = record {
  same_length =
      length-splice d off (off + w) (pack_le w v)
        (omega (arith, length-pack_le w v, length-slice d off (off + w)));
  still_bytes = λ k. All-splice IsByte d off (off + w) (pack_le w v) k (pack_le-IsByte w v);
  elsewhere = λ c e apart.
      slice-splice_other d off (off + w) c e (pack_le w v) (omega (arith, length-pack_le w v))
        (omega arith) h apart;
}

pub little-splice :
    (w off v : ℕ) (d : Bytes)
    → off + w ≤ length d
    → v < 256 ^ w
    → little w off (splice d off (off + w) (pack_le w v)) ≡ v
little-splice w off v d h k =
    ap le_value (
      slice-splice_self d off (off + w) (pack_le w v) (omega (arith, length-pack_le w v))
        (omega arith) h)
    ∙ le_value-pack_le w v k

big-lt : (w off : ℕ) (d : Bytes) → off + w ≤ length d → All IsByte d → big w off d < 256 ^ w
big-lt w off d h k =
    let size : length (slice d off (off + w)) ≡ w = omega (arith, length-slice d off (off + w)) in
    rw size at (be_value-lt (slice d off (off + w)) (All-slice IsByte d off (off + w) k))

-- A field in range is rewritten, and its value is what stood there.
abbrev pub Swapped : ℕ → ℕ → Bytes → ℕ × Bytes → Type 0
Swapped w off d (v, out) =
    (v ≡ big w off d)
    × (All IsByte d → little w off out ≡ big w off d)
    × Rewrites off (off + w) d out

pub swap-Swapped :
    (w off : ℕ) (d : Bytes) → off + w ≤ length d → Returns (Swapped w off d) (swap w off d)
unfolding swap
swap-Swapped w off d h = rw (unpack_be-ok w off d h) (
  refl,
  (λ k. little-splice w off (big w off d) d h (big-lt w off d h k)),
  splice-Rewrites w off (big w off d) d h,
)

pub swap_signed-Rewrites :
    (off : ℕ) (d : Bytes)
    → off + 4 ≤ length d
    → Returns (λ out. Rewrites off (off + 4) d out) (swap_signed off d)
unfolding swap_signed
swap_signed-Rewrites off d h =
    rw (unpack_be-ok 4 off d h) (splice-Rewrites 4 off (pattern_of (signed (big 4 off d))) d h)

pub Rewrites-trans :
    (lo hi : ℕ) {a b c e : ℕ} {d m out : Bytes}
    → Rewrites a b d m
    → Rewrites c e m out
    → (lo ≤ a) × (b ≤ hi) × (lo ≤ c) × (e ≤ hi)
    → Rewrites lo hi d out
Rewrites-trans lo hi r s h = record {
  same_length = s.same_length ∙ r.same_length;
  still_bytes = λ x. s.still_bytes (r.still_bytes x);
  elsewhere = λ i j apart. s.elsewhere i j (omega arith) ∙ r.elsewhere i j (omega arith);
}

pub Rewrites-refl : (a b : ℕ) (d : Bytes) → Rewrites a b d d
Rewrites-refl a b d = record {
  same_length = refl;
  still_bytes = λ x. x;
  elsewhere = λ i j apart. refl;
}

-- The values of a row of fields.
abbrev pub bigs : List ℕ → ℕ → Bytes → List ℕ
bigs [] off d = []
bigs (w ∷ ws) off d = big w off d ∷ bigs ws (off + w) d

abbrev pub littles : List ℕ → ℕ → Bytes → List ℕ
littles [] off d = []
littles (w ∷ ws) off d = little w off d ∷ littles ws (off + w) d

pub bigs-Rewrites :
    (ws : List ℕ) (a b off : ℕ) {d out : Bytes}
    → Rewrites a b d out
    → b ≤ off
    → bigs ws off out ≡ bigs ws off d
bigs-Rewrites [] a b off r h = refl
bigs-Rewrites (w ∷ ws) a b off r h =
    cc (r.elsewhere off (off + w) (inl h), bigs-Rewrites ws a b (off + w) r (omega arith))

abbrev pub SwappedAll : List ℕ → ℕ → Bytes → List ℕ × Bytes → Type 0
SwappedAll ws off d (vs, out) =
    (vs ≡ bigs ws off d)
    × (All IsByte d → littles ws off out ≡ bigs ws off d)
    × Rewrites off (off + sum ws) d out

pub swap_fields-SwappedAll :
    (ws : List ℕ) (off : ℕ) (d : Bytes)
    → off + sum ws ≤ length d
    → Returns (SwappedAll ws off d) (swap_fields ws off d)
unfolding swap_fields
swap_fields-SwappedAll [] off d h = (refl, (λ k. refl), Rewrites-refl off (off + 0) d)
swap_fields-SwappedAll (w ∷ ws) off d h =
    Returns-bind (Swapped w off d) (SwappedAll (w ∷ ws) off d) (swap w off d) _
      (swap-Swapped w off d (omega arith))
      λ (v, d') (ev, el, r).
        Returns-bind (SwappedAll ws (off + w) d') (SwappedAll (w ∷ ws) off d)
          (swap_fields ws (off + w) d') _
          (swap_fields-SwappedAll ws (off + w) d' (omega (arith, r.same_length)))
          λ (vs, out) (evs, els, s).
            let later = bigs-Rewrites ws off (off + w) (off + w) r (omega arith) in
            (
              cc,
              (λ k. cc (
                el k,
                s.elsewhere off (off + w) (inr (omega arith)),
                els (r.still_bytes k),
                later,
              )),
              Rewrites-trans off (off + (w + sum ws)) r s (omega arith),
            )

-- ===== src/Roms/Diff/Map.antt =====
-- What the byte map of two ROMs counts.
use binutils_mcs.Base.{
  ℕ, ◌+◌, ◌≡◌, false, ◌&&◌, [], ◌∷◌, arith, ◌==◌, if◌then◌else◌, Bool-cases, inl, inr,
}
use binutils_mcs.Base.Bytes.{Bytes}
use binutils_mcs.Roms.Diff.{Counter, seen, bump, Pairs, counter_of, see, pairs_from, pairs}

seen-bump : (v w : ℕ) (c : Counter) → seen w (bump v c) ≡ seen w c + (if v == w then 1 else 0)
unfolding bump
seen-bump v w [] = ground arith
seen-bump v w ((u, n) ∷ c) = ground (arith, seen-bump v w c)

seen-see :
    (r g k v : ℕ) (ps : Pairs)
    → seen v (counter_of k (see r g ps))
      ≡ seen v (counter_of k ps) + (if r == k && g == v then 1 else 0)
unfolding see
seen-see r g k v [] = ground (arith, seen-bump g v [])
seen-see r g k v ((j, c) ∷ ps) = ground (arith, seen-see r g k v ps, seen-bump g v c)

-- The offsets of the shared prefix at which the reference has `k` and the produced ROM has `v`.
abbrev pub meetings : ℕ → ℕ → Bytes → Bytes → ℕ
meetings k v [] gb = 0
meetings k v (r ∷ rb) [] = 0
meetings k v (r ∷ rb) (g ∷ gb) = meetings k v rb gb + (if r == k && g == v then 1 else 0)

seen-pairs_from :
    (k v : ℕ) (rb gb : Bytes) (ps : Pairs)
    → (k == v) ≡ false
    → seen v (counter_of k (pairs_from rb gb ps)) ≡ seen v (counter_of k ps) + meetings k v rb gb
unfolding pairs_from
seen-pairs_from k v [] gb ps h = omega arith
seen-pairs_from k v (r ∷ rb) [] ps h = omega arith
seen-pairs_from k v (r ∷ rb) (g ∷ gb) ps h = elim (Bool-cases (r == g)) [
  | inl same ↦ rw (same, pairs_from) (ground (arith, seen-pairs_from k v rb gb ps h))
  | inr differs ↦
      rw (differs, pairs_from)
        (ground (arith, seen-pairs_from k v rb gb (see r g ps) h, seen-see r g k v ps))
]

-- The byte map counts, for a reference byte and another produced one, the offsets at which the one
-- stands where the other stood.
pub pairs-meetings :
    (k v : ℕ) (rb gb : Bytes)
    → (k == v) ≡ false
    → seen v (counter_of k (pairs rb gb)) ≡ meetings k v rb gb
pairs-meetings k v rb gb h = omega (arith, seen-pairs_from k v rb gb [] h)

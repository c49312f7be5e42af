-- ===== src/Elf/Archive/Splices.antt =====
-- A slice of an archive rewritten by as many bytes, also where the slice is cut at its end.
use binutils_mcs.Base.{
  ℕ, ◌+◌, ◌≡◌, ◌≤◌, ◌⊎◌, ap, arith, length, get_elem?, get_elem?-none, list_ext,
}
use binutils_mcs.Base.Bytes.{
  Bytes, slice, splice, length-splice, length-slice, get_elem?-slice, get_elem?-splice,
  add_sub_cancel,
}

-- The bytes from `a` to `b` are `v`, the others are kept.
pub record Spliced (a b : ℕ) (v d out : Bytes) : Type 0 where
  pub same_length : length out ≡ length d
  pub inside : slice out a b ≡ v
  pub elsewhere : (c e : ℕ) → (b ≤ c) ⊎ (e ≤ a) → slice out c e ≡ slice d c e

pub splice-Spliced :
    (a b : ℕ) (v d : Bytes)
    → a ≤ b
    → length v ≡ length (slice d a b)
    → Spliced a b v d (splice d a b v)
splice-Spliced a b v d k h = record {
  same_length = length-splice d a b v h;
  inside = list_ext (slice (splice d a b v) a b) v λ i. ground (
    arith,
    get_elem?-slice (splice d a b v) a b i,
    get_elem?-splice d a b v (a + i) h,
    get_elem?-none v i,
    get_elem?-none d (a + i),
    ap (get_elem? v) (add_sub_cancel a i),
    length-slice d a b,
  );
  elsewhere = λ c e apart. list_ext (slice (splice d a b v) c e) (slice d c e) λ i. ground (
    arith,
    get_elem?-slice (splice d a b v) c e i,
    get_elem?-slice d c e i,
    get_elem?-splice d a b v (c + i) h,
    get_elem?-none d (c + i),
    length-slice d a b,
  );
}

-- ===== src/Hex/Payload/Damage.antt =====
-- Damage to one byte of a record that was accepted is found.
use binutils_mcs.Base.{
  ℕ, zero, suc, ◌+◌, ◌%◌, ◌<◌, ◌≡◌, ◌≢◌, some, [], ◌∷◌, arith, ok, get_elem?, set,
}
use binutils_mcs.Base.Bytes.{Bytes}
use binutils_mcs.Hex.Payload.{total, check_record}

check_record-total : (raw : Bytes) {out : Bytes} → check_record raw ≡ ok out → total raw % 256 ≡ 0
unfolding check_record
check_record-total raw h = ground arith

total-set :
    (raw : Bytes) (i v : ℕ) {b : ℕ}
    → get_elem? raw i ≡ some b
    → total (set raw i v) + b ≡ total raw + v
unfolding total
total-set [] i v h = cc
total-set (x ∷ xs) zero v h = ground arith
total-set (x ∷ xs) (suc i) v h = omega (arith, total-set xs i v h)

-- If a record is accepted, none that has another byte at one of its places is; both bytes are below 256.
pub check_record-set :
    (raw : Bytes) (i b v : ℕ) {out : Bytes} (out' : Bytes)
    → check_record raw ≡ ok out
    → get_elem? raw i ≡ some b
    → b < 256
    → v < 256
    → v ≢ b
    → check_record (set raw i v) ≢ ok out'
check_record-set raw i b v out' good at_i hb hv ne bad = omega (
  arith,
  check_record-total raw good,
  check_record-total (set raw i v) bad,
  total-set raw i v at_i,
)

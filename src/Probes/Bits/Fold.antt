-- ===== src/Probes/Bits/Fold.antt =====
-- The rule of bit addresses that the tables hold.
use binutils_mcs.Base.{
  ℕ, ◌+◌, ◌-◌, ◌*◌, ◌%◌, ◌≡◌, refl, not, ◌&&◌, Option, none, some, ltb, leb, ◌==◌, if◌then◌else◌,
  All,
}
use binutils_mcs.Probes.Bits.{LinkCase, link_cases}

-- The address of bit `b` of byte `a`, of the two windows of the bit space.
pub bit_address : ℕ → ℕ → Option ℕ
bit_address a b =
    if not (ltb b 8)
    then none
    else if leb 0x20 a && leb a 0x2f
    then some ((a - 0x20) * 8 + b)
    else if leb 0x80 a && leb a 0xff && a % 8 == 0
    then some (a + b)
    else none

-- Each linked case wants the bit that the rule gives, or none where the rule has none.
pub link_cases-folded : All (λ (c : LinkCase). c.want ≡ bit_address c.addr c.off) link_cases
unfolding bit_address
link_cases-folded = (
  refl,
  (
    refl,
    (refl, (refl, (refl, (refl, (refl, (refl, (refl, (refl, (refl, (refl, (refl, tt))))))))))),
  ),
)

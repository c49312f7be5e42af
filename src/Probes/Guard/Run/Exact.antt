-- ===== src/Probes/Guard/Run/Exact.antt =====
-- The offsets of the cases against the rule that they test.
use binutils_mcs.Base.{
  ℕ, ◌+◌, ◌^◌, ◌≤◌, ◌<◌, ◌≡◌, ◌↔◌, refl, Bool, true, [], ◌∷◌, All, All-append, arith, ◌==◌,
  if◌then◌else◌, Bool-cases, inl, inr,
}
use binutils_mcs.Probes.Guard.Run.{wild_offset, masked_sub, cases_of}

-- A case is refused exactly if its field ends behind the section.
abbrev pub IsExact : ℕ → ℕ → ℕ × Bool → Type 0
IsExact size end (offset, want) = (want ≡ true) ↔ (end < offset + size)

masked_sub-fits : (a b : ℕ) → b ≤ a → a < 2 ^ 32 → masked_sub a b + b ≡ a
masked_sub-fits a b h k = omega (arith, h, k)

refused : (size end offset : ℕ) → end < offset + size → IsExact size end (offset, true)
refused size end offset h = ((λ _. h), (λ _. refl))

-- Each case of a probe is refused exactly if its field ends behind the section; the section holds a field, and is not
-- longer than the wild offset.
pub cases_of-IsExact :
    (rtype size end : ℕ)
    → 1 ≤ size
    → size ≤ end
    → end ≤ 0xffff
    → All (IsExact size end) (cases_of rtype size end)
cases_of-IsExact rtype size end one fits short =
    let legal = masked_sub-fits end size fits (omega (arith, short)) in
    let straddle = masked_sub-fits (end + 1) size (omega (arith, fits)) (omega (arith, short)) in
    (
      ((λ e. cc e), (λ l. absurd (omega (arith, l, legal)))),
      All-append (IsExact size end)
          (if size == 1 then [] else (masked_sub (end + 1) size, true) ∷ []) _
          (elim (Bool-cases (size == 1)) [
            | inl is ↦ rw is tt
            | inr other ↦
                rw other
                  (refused size end (masked_sub (end + 1) size) (omega (arith, straddle)), tt)
          ])
          (
            refused size end end (omega (arith, one)),
            elim (Bool-cases (rtype == 9)) [
              | inl is ↦ rw is (refused size end wild_offset (omega (arith, one, short)), tt)
              | inr other ↦ rw other tt
            ],
          ),
    )

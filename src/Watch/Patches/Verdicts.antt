-- ===== src/Watch/Patches/Verdicts.antt =====
-- What the verdict on a patch says.
use binutils_mcs.Base.{
  ℕ, ◌<◌, leb, ◌≡◌, ◌≢◌, ◌↔◌, refl, sym, ap, ◌∙◌, Bool, true, false, not, ◌&&◌, ◌||◌, some, List,
  [], ◌∷◌, arith, if◌then◌else◌, Bool-cases, inl, inr, Result, ok, err,
}
use mathlib.Core.Path.{subst}
use binutils_mcs.Base.Bytes.{codes}
use binutils_mcs.Base.Int.{ℤ, pos, negsuc}
use binutils_mcs.Base.Text.{Text, contains}
use binutils_mcs.Watch.Releases.{Malfunction}
use binutils_mcs.Watch.Log.{Log, Slide, parse_patch_log}
use binutils_mcs.Watch.Patches.{
  clean, offsets, rejected, Applied, lower, none_in, is_serious, is_code, says_reversed, verdict_of,
  judge_patch, apply_patch,
}

-- A run of patch that is reported: it did not return 2 or more; rejected is what returned 1; clean is what did not, and has
-- no offset in its log, and where it returned 0 the log has neither text of a reversed patch.
pub record IsJudged (rc : ℤ) (text : Text) (r : Applied) : Type 0 where
  pub same_code : r.rc ≡ rc
  pub not_serious : (n : ℕ) → rc ≡ pos n → n < 2
  pub is_rejected : (r.verdict ≡ rejected) ↔ (rc ≡ pos 1)
  pub is_clean :
      r.verdict ≡ clean
      → (rc ≢ pos 1) × (contains (codes "offset") (lower text) ≡ false) × (r.log.offsets ≡ [])
  pub not_reversed :
      rc ≡ pos 0
      → (contains (codes "Reversed (or previously applied)") text ≡ false)
        × (contains (codes "Assume -R") text ≡ false)

below_two : (rc : ℤ) → is_serious rc ≡ false → (n : ℕ) → rc ≡ pos n → n < 2
below_two rc h n e = let small : leb 2 n ≡ false = ap is_serious (sym e) ∙ h in ground arith

is_code_iff : (rc : ℤ) → (is_code 1 rc ≡ true) ↔ (rc ≡ pos 1)
is_code_iff (pos m) = ground arith
is_code_iff (negsuc m) = ((λ e. cc e), (λ e. cc e))

none_in-nil : (l : List Slide) → not (none_in l) ≡ false → l ≡ []
none_in-nil [] h = refl
none_in-nil (x ∷ l) h = cc

slid-rejected : (b : Bool) → (if b then offsets else clean) ≢ rejected
slid-rejected true h = cc h
slid-rejected false h = cc h

slid-clean : (b : Bool) → (if b then offsets else clean) ≡ clean → b ≡ false
slid-clean true h = cc h
slid-clean false h = refl

verdict_of-rejected : (rc : ℤ) (log : Log) → (verdict_of rc log ≡ rejected) ↔ (rc ≡ pos 1)
verdict_of-rejected rc log = elim (Bool-cases (is_code 1 rc)) [
  | inl one ↦ ((λ _. (is_code_iff rc).0 one), (λ _. rw one refl))
  | inr other ↦ (
    (λ e. absurd (slid-rejected (not (none_in log.offsets)) (rw other at e))),
    (λ e. cc (sym ((is_code_iff rc).1 e) ∙ other)),
  )
]

verdict_of-clean :
    (rc : ℤ) (log : Log) → verdict_of rc log ≡ clean → (rc ≢ pos 1) × (log.offsets ≡ [])
verdict_of-clean rc log h = elim (Bool-cases (is_code 1 rc)) [
  | inl one ↦ cc (rw one at h)
  | inr other ↦ (
    (λ e. cc (sym ((is_code_iff rc).1 e) ∙ other)),
    none_in-nil log.offsets (slid-clean (not (none_in log.offsets)) (rw other at h)),
  )
]

guarded :
    (t₁ t₂ t₃ t₄ : Bool) (e₁ e₂ e₃ e₄ : Malfunction) (x : Applied) {y : Applied}
    → ◌≡◌ {A = Result Malfunction Applied}
        (if t₁
          then err e₁
          else if t₂
          then err e₂
          else if t₃
          then err e₃
          else if t₄
          then err e₄
          else ok x)
        (ok y)
    → (t₁ ≡ false) × (t₂ ≡ false) × (t₄ ≡ false) × (x ≡ y)
guarded true t₂ t₃ t₄ e₁ e₂ e₃ e₄ x h = cc
guarded false true t₃ t₄ e₁ e₂ e₃ e₄ x h = cc
guarded false false true t₄ e₁ e₂ e₃ e₄ x h = cc
guarded false false false true e₁ e₂ e₃ e₄ x h = cc
guarded false false false false e₁ e₂ e₃ e₄ x h = (refl, refl, refl, cc h)

both_false : (a b : Bool) → a && b ≡ false → b ≡ true → a ≡ false
both_false true b h k = cc
both_false false b h k = refl

neither : (a b : Bool) → a || b ≡ false → (a ≡ false) × (b ≡ false)
neither true b h = cc
neither false b h = (refl, h)

second_false : (a : Bool) {b : Bool} → a && b ≡ false → a ≡ true → b ≡ false
second_false true h k = h
second_false false h k = cc k

-- A patch that is there and is reported was not refused for its exit code, which is not 2 or more; its verdict is rejected
-- exactly if that is 1, and clean only if it is not 1 and neither the log names an offset nor one was parsed; and where
-- the exit code is 0 the log has neither `Reversed (or previously applied)` nor `Assume -R`.
pub apply_patch-IsJudged :
    (lines : List Text) (rc : ℤ) (text : Text) {r : Applied}
    → apply_patch (some lines) (some (rc, text)) ≡ ok r
    → IsJudged rc text r
unfolding apply_patch judge_patch
apply_patch-IsJudged lines rc text {r} h =
    let log = parse_patch_log text in
    let (calm, read, straight, same) =
      guarded (is_serious rc) (contains (codes "offset") (lower text) && none_in log.offsets) _
        (is_code 0 rc && says_reversed text) _ _ _ _ _ h in
    subst (IsJudged rc text) same (record {
      same_code = refl;
      not_serious = below_two rc calm;
      is_rejected = verdict_of-rejected rc log;
      is_clean = λ e.
          let (not_one, none_slid) = verdict_of-clean rc log e in
          (not_one, both_false _ (none_in log.offsets) read (rw none_slid refl), none_slid);
      not_reversed = λ e.
          neither (contains (codes "Reversed (or previously applied)") text) _
            (second_false (is_code 0 rc) straight (ap (is_code 0) e));
    })

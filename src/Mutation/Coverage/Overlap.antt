-- ===== src/Mutation/Coverage/Overlap.antt =====
-- What the relation of two kill sets says.
use binutils_mcs.Base.{
  ◌≡◌, refl, Bool, true, false, ◌&&◌, List, [], ◌∷◌, arith, if◌then◌else◌, Bool-cases, inl, inr,
  ◌↔◌,
}
use binutils_mcs.Base.Bytes.{equal, equal_iff}
use binutils_mcs.Base.Text.{Text}
use binutils_mcs.Base.Dict.{member}
use mathlib.Core.Path.{subst, sym}
use binutils_mcs.Mutation.Coverage.{
  is_empty, only, Relation, identical, within_b, within_a, apart, relation,
}

-- Every mutant of the one is one of the other.
abbrev pub Within : List Text → List Text → Type 0
Within a b = (x : Text) → member x a ≡ true → member x b ≡ true

only-Within : (a b : List Text) → is_empty (only a b) ≡ true → Within a b
unfolding only
only-Within [] b h x m = cc
only-Within (y ∷ a) b h x m = elim (Bool-cases (member y b)) [
  | inl old ↦ elim (Bool-cases (equal x y)) [
    | inl same ↦ subst (λ z. member z b ≡ true) (sym ((equal_iff x y).0 same)) old
    | inr other ↦ only-Within a b (rw old at h) x (rw other at m)
  ]
  | inr new ↦ cc (rw new at h)
]

Within-only : (a b : List Text) → Within a b → is_empty (only a b) ≡ true
unfolding only
Within-only [] b h = refl
Within-only (y ∷ a) b h =
    rw (h y (rw ((equal_iff y y).1 refl))) (Within-only a b (λ x m. h x (ground (arith, m))))

abbrev related : Bool → Bool → Relation
related p q = if p && q then identical else if p then within_b else if q then within_a else apart

related_iff :
    (p q : Bool) (P Q : Type 0)
    → ((p ≡ true) ↔ P)
    → ((q ≡ true) ↔ Q)
    → ((related p q ≡ identical) ↔ (P × Q))
      × ((related p q ≡ within_b) ↔ (P × ¬ Q))
      × ((related p q ≡ within_a) ↔ (Q × ¬ P))
related_iff true true P Q hp hq = (
  ((λ _. (hp.0 refl, hq.0 refl)), (λ _. refl)),
  ((λ e. cc e), (λ k. absurd (k.1 (hq.0 refl)))),
  ((λ e. cc e), (λ k. absurd (k.1 (hp.0 refl)))),
)
related_iff true false P Q hp hq = (
  ((λ e. cc e), (λ k. cc (hq.1 k.1))),
  ((λ _. (hp.0 refl, (λ x. cc (hq.1 x)))), (λ _. refl)),
  ((λ e. cc e), (λ k. absurd (k.1 (hp.0 refl)))),
)
related_iff false true P Q hp hq = (
  ((λ e. cc e), (λ k. cc (hp.1 k.0))),
  ((λ e. cc e), (λ k. cc (hp.1 k.0))),
  ((λ _. (hq.0 refl, (λ x. cc (hp.1 x)))), (λ _. refl)),
)
related_iff false false P Q hp hq = (
  ((λ e. cc e), (λ k. cc (hp.1 k.0))),
  ((λ e. cc e), (λ k. cc (hp.1 k.0))),
  ((λ e. cc e), (λ k. cc (hq.1 k.0))),
)

-- The relation that is printed for a pair of stages is exactly the containment of their kill sets:
-- `identical` if each is within the other, and a subset if it is within the other and not the other way round.
pub relation_iff :
    (a b : List Text)
    → ((relation a b ≡ identical) ↔ (Within a b × Within b a))
      × ((relation a b ≡ within_b) ↔ (Within a b × ¬ (Within b a)))
      × ((relation a b ≡ within_a) ↔ (Within b a × ¬ (Within a b)))
unfolding relation
relation_iff a b =
    related_iff (is_empty (only a b)) (is_empty (only b a)) (Within a b) (Within b a)
      ((λ h. only-Within a b h), (λ h. Within-only a b h))
      ((λ h. only-Within b a h), (λ h. Within-only b a h))

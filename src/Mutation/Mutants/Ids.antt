-- ===== src/Mutation/Mutants/Ids.antt =====
-- What the id of a mutant can be read back from.
use binutils_mcs.Base.{
  append-nil, ℕ, zero, suc, ◌+◌, ◌/◌, ◌%◌, ◌≤◌, ◌<◌, ◌≡◌, refl, sym, ap, ◌∙◌, Bool, true, false,
  Option, none, some, List, [], ◌∷◌, ◌++◌, All, arith, ltb, ◌==◌, if◌then◌else◌, Bool-cases, inl,
  inr,
}
use mathlib.Core.Path.{subst}
use mathlib.Core.Option.{some-injective}
use binutils_mcs.Base.Text.{Text, split_once}
use binutils_mcs.Base.Decimal.{decimal, decimal_from}
use binutils_mcs.Base.Scan.{digits_value}
use binutils_mcs.Mutation.Mutants.{Match, Ranking, total, id_of}
use binutils_mcs.Mutation.Mutants.Ranked.{IsCounted}

decimal_from-value :
    (fuel n : ℕ) (acc : Text)
    → n < fuel
    → digits_value 0 (decimal_from fuel n acc) ≡ digits_value n acc
unfolding decimal_from digits_value
decimal_from-value zero n acc h = absurd (omega (arith, h))
decimal_from-value (suc fuel) n acc h = elim (Bool-cases (ltb n 10)) [
  | inl one ↦ rw (one, decimal_from) (ap (λ k. digits_value k acc) (omega arith))
  | inr more ↦
      rw (more, decimal_from)
        (decimal_from-value fuel (n / 10) ((n % 10 + b'0') ∷ acc) (ground (arith, more, h))
          ∙ ap (λ k. digits_value k acc) (omega arith))
]

-- A number is read back from its digits.
decimal-inj : (a b : ℕ) → decimal a ≡ decimal b → a ≡ b
unfolding digits_value
decimal-inj a b h =
    sym (decimal_from-value (suc a) a [] (omega arith))
    ∙ ap (digits_value 0) h
    ∙ decimal_from-value (suc b) b [] (omega arith)

-- The separator does not stand in the text.
abbrev pub IsFree : ℕ → Text → Type 0
IsFree sep s = All (λ c. c == sep ≡ false) s

decimal_from-IsFree :
    (fuel n : ℕ) (acc : Text) → IsFree b'.' acc → IsFree b'.' (decimal_from fuel n acc)
unfolding decimal_from
decimal_from-IsFree zero n acc h = h
decimal_from-IsFree (suc fuel) n acc h = elim (Bool-cases (ltb n 10)) [
  | inl one ↦ rw (one, decimal_from) (ground arith, h)
  | inr more ↦
      rw (more, decimal_from)
        (decimal_from-IsFree fuel (n / 10) ((n % 10 + b'0') ∷ acc) (ground arith, h))
]

split_once-free :
    (sep : ℕ) (s rest : Text) → IsFree sep s → split_once sep (s ++ sep ∷ rest) ≡ some (s, rest)
unfolding split_once
split_once-free sep [] rest h = let same : sep == sep ≡ true = ground arith in rw same refl
split_once-free sep (c ∷ s) rest (other, h) = rw (split_once-free sep s rest h) (rw other refl)

split_once-none : (sep : ℕ) (s : Text) → IsFree sep s → split_once sep s ≡ none
unfolding split_once
split_once-none sep [] h = refl
split_once-none sep (c ∷ s) (other, h) = rw (split_once-none sep s h) (rw other refl)

pair-inj :
    {A B : Type 0} {a c : A} {b d : B}
    → ◌≡◌ {A = Option (A × B)} (some (a, b)) (some (c, d))
    → (a ≡ c) × (b ≡ d)
pair-inj {A} {B} h =
    let e = some-injective _ _ h in (ap (λ (p : A × B). p.0) e, ap (λ (p : A × B). p.1) e)

-- Two texts with one separator in front agree before it and behind it.
pub split_both :
    (sep : ℕ) (a b s t : Text)
    → IsFree sep a
    → IsFree sep b
    → a ++ sep ∷ s ≡ b ++ sep ∷ t
    → (a ≡ b) × (s ≡ t)
split_both sep a b s t h k e =
    pair-inj (sym (split_once-free sep a s h) ∙ ap (split_once sep) e ∙ split_once-free sep b t k)

decimal-IsFree : (n : ℕ) → IsFree b'.' (decimal n)
decimal-IsFree n = decimal_from-IsFree (suc n) n [] tt

-- The line and, in a line with several matches, the number.
abbrev suffix : ℕ → Bool → ℕ → Text
suffix line many nth = decimal line ++ (if many then b'.' ∷ decimal nth else [])

suffix-split :
    (line : ℕ) (many : Bool) (nth : ℕ)
    → split_once b'.' (suffix line many nth)
      ≡ (if many then some (decimal line, decimal nth) else none)
suffix-split line true nth = split_once-free b'.' (decimal line) (decimal nth) (decimal-IsFree line)
suffix-split line false nth =
    ap (split_once b'.') (append-nil (decimal line))
    ∙ split_once-none b'.' (decimal line) (decimal-IsFree line)

suffix-inj :
    (l k : ℕ) (b c : Bool) (m n : ℕ) → suffix l b m ≡ suffix k c n → (l ≡ k) × ((b ≡ true) → m ≡ n)
suffix-inj l k true true m n e =
    let (line, nth) =
      pair-inj (sym (suffix-split l true m) ∙ ap (split_once b'.') e ∙ suffix-split k true n) in
    (decimal-inj l k line, λ _. decimal-inj m n nth)
suffix-inj l k true false m n e =
    cc (sym (suffix-split l true m) ∙ ap (split_once b'.') e ∙ suffix-split k false n)
suffix-inj l k false true m n e =
    cc (sym (suffix-split l false m) ∙ ap (split_once b'.') e ∙ suffix-split k true n)
suffix-inj l k false false m n e =
    (decimal-inj l k (sym (append-nil (decimal l)) ∙ e ∙ append-nil (decimal k)), λ z. cc z)

append-inj : (a s t : Text) → a ++ s ≡ a ++ t → s ≡ t
append-inj [] s t e = e
append-inj (c ∷ a) s t e = append-inj a s t (cons-inj e)
  where
    cons-inj : {x : ℕ} {u v : Text} → x ∷ u ≡ x ∷ v → u ≡ v
    cons-inj h = cc h

tail : Text → Text
tail [] = []
tail (c ∷ s) = s

-- Two matches of one operator with one id are the same match of the same line.
pub id_of-inj :
    (key name : Text) (ms : List Match) (r s : Ranking)
    → IsCounted ms r
    → IsCounted ms s
    → id_of key name ms r ≡ id_of key name ms s
    → (r.line ≡ s.line) × (r.nth ≡ s.nth)
unfolding tail
id_of-inj key name ms r s (low, high) (low', high') e =
    let cut = ap tail (append-inj name _ _ (ap tail (append-inj key _ _ e))) in
    let (lines, numbers) =
      suffix-inj (r.line + 1) (s.line + 1) (ltb 1 (total ms r.line)) (ltb 1 (total ms s.line)) r.nth
        s.nth cut in
    let same : r.line ≡ s.line = omega (arith, lines) in
    (
      same,
      elim (Bool-cases (ltb 1 (total ms r.line))) [
        | inl many ↦ numbers many
        | inr one ↦
            let high'' : s.nth ≤ total ms r.line =
              subst (λ l. s.nth ≤ total ms l) (sym same) high' in
            ground (arith, one, low, high, low', high'')
      ],
    )

-- ===== src/Watch/Releases/Spelling.antt =====
-- The texts that the expressions of the index match: literals, runs of characters and versions.
use binutils_mcs.Base.{
  ℕ, ◌≤◌, ◌≡◌, ◌≢◌, ◌⊎◌, refl, sym, ap, ◌∙◌, Bool, true, ◌==◌, Option, none, some, [], ◌∷◌, ◌++◌,
  arith, All, All-map, ==_iff, Bool-cases, Option-cases, inl, inr,
}
use mathlib.Core.Path.{subst}
use mathlib.Core.List.{append_assoc}
use binutils_mcs.Base.Text.{Text}
use binutils_mcs.Base.Scan.{span, after, is_digit, digits, run_of}
use binutils_mcs.Watch.Releases.{dotted, read_version}

abbrev pub IsNumber : Text → Type 0
IsNumber a = (a ≢ []) × All (λ c. (48 ≤ c) × (c ≤ 57)) a

-- Two or three numbers with a dot between each two.
abbrev pub IsVersion : Text → Type 0
IsVersion v =
    (a : Text) × (b : Text) × IsNumber a
    × IsNumber b
    × ((v ≡ a ++ (46 ∷ b)) ⊎ ((c : Text) × IsNumber c × (v ≡ a ++ ((46 ∷ b) ++ (46 ∷ c)))))

pair_both :
    {a b c d : Text}
    → ◌≡◌ {A = Option (Text × Text)} (some (a, b)) (some (c, d))
    → (a ≡ c) × (b ≡ d)
pair_both h = (cc h, cc h)

one_both : {a b : Text} → ◌≡◌ {A = Option Text} (some a) (some b) → a ≡ b
one_both h = cc h

pub after-some : (p s : Text) {r : Text} → after p s ≡ some r → s ≡ p ++ r
unfolding after
after-some [] s h = one_both h
after-some (c ∷ p) [] h = cc h
after-some (c ∷ p) (d ∷ s) {r} h = elim (Bool-cases (c == d)) [
  | inr other ↦ cc (rw (other, after) at h)
  | inl same ↦
      let rest : s ≡ p ++ r = after-some p s (rw (same, after) at h) in
      let first : c ≡ d = (==_iff c d).0 same in ap (λ e. e ∷ s) (sym first) ∙ ap (λ l. c ∷ l) rest
]

span-append : (p : ℕ → Bool) (s : Text) → s ≡ (span p s).0 ++ (span p s).1
unfolding span
span-append p [] = refl
span-append p (c ∷ s) = elim (Bool-cases (p c)) [
  | inl is ↦ rw is (ap (λ l. c ∷ l) (span-append p s))
  | inr other ↦ rw other refl
]

span-All : (p : ℕ → Bool) (s : Text) → All (λ c. p c ≡ true) (span p s).0
unfolding span
span-All p [] = tt
span-All p (c ∷ s) = elim (Bool-cases (p c)) [
  | inl is ↦ rw is (is, span-All p s)
  | inr other ↦ rw other tt
]

-- What a run of characters is.
unfoldable pub IsRun : (ℕ → Bool) → Text → Text → Text → Type 0
IsRun p s a r = (s ≡ a ++ r) × (a ≢ []) × All (λ c. p c ≡ true) a

IsRun-filled :
    (p : ℕ → Bool) (s a b : Text) {u v : Text}
    → s ≡ a ++ b
    → All (λ c. p c ≡ true) a
    → ◌≡◌ {A = Option (Text × Text)}
        (elim a [ [] ↦ none | c ∷ cs ↦ some (c ∷ cs, b) ])
        (some (u, v))
    → IsRun p s u v
unfolding IsRun
IsRun-filled p s [] b whole all h = cc h
IsRun-filled p s (c ∷ cs) b {u} {v} whole all h =
    let (same, rest) = pair_both h in
    (
      whole ∙ ap (λ l. (c ∷ cs) ++ l) rest ∙ ap (λ l. l ++ v) same,
      (λ e. cc (same ∙ e)),
      subst (All (λ c. p c ≡ true)) same all,
    )

pub run_of-IsRun : (p : ℕ → Bool) (s : Text) {a r : Text} → run_of p s ≡ some (a, r) → IsRun p s a r
unfolding run_of
run_of-IsRun p s h = IsRun-filled p s (span p s).0 (span p s).1 (span-append p s) (span-All p s) h

digit_range : (c : ℕ) → is_digit c ≡ true → (48 ≤ c) × (c ≤ 57)
digit_range c h = (ground (arith, h), ground (arith, h))

digits-IsNumber : (s : Text) {a r : Text} → digits s ≡ some (a, r) → (s ≡ a ++ r) × IsNumber a
unfolding IsRun
digits-IsNumber s {a} h =
    let (whole, filled, all) = run_of-IsRun is_digit s h in
    (whole, (filled, All-map digit_range a all))

dotted-IsNumber :
    (s : Text) {a r : Text}
    → dotted s ≡ some (a, r)
    → (b : Text) × (a ≡ 46 ∷ b) × IsNumber b × (s ≡ a ++ r)
unfolding dotted
dotted-IsNumber [] h = cc h
dotted-IsNumber (c ∷ cs) {a} {r} h = elim (Bool-cases (c == b'.')) [
  | inr other ↦ cc (rw (other, dotted) at h)
  | inl dot ↦ elim (Option-cases (digits cs)) [
    | inl absent ↦ cc (rw (absent, dotted) at (rw (dot, dotted) at h))
    | inr ((b, rest), is) ↦
        let (same, end) = pair_both (rw (is, dotted) at (rw (dot, dotted) at h)) in
        let (whole, number) = digits-IsNumber cs is in
        (
          b,
          sym same,
          number,
          ap (λ d. d ∷ cs) ((==_iff c b'.').0 dot)
              ∙ ap (λ l. 46 ∷ l) whole
              ∙ ap (λ l. (46 ∷ b) ++ l) end
              ∙ ap (λ l. l ++ r) same,
        )
  ]
]

pub read_version-IsVersion :
    (s : Text) {v r : Text} → read_version s ≡ some (v, r) → (s ≡ v ++ r) × IsVersion v
unfolding read_version
read_version-IsVersion s {v} {r} h = elim (Option-cases (digits s)) [
  | inl absent ↦ cc (rw (absent, read_version) at h)
  | inr ((a, r₁), one) ↦
      let h₁ = rw (one, read_version) at h in
      let (whole, a_is) = digits-IsNumber s one in
      elim (Option-cases (dotted r₁)) [
        | inl absent ↦ cc (rw (absent, read_version) at h₁)
        | inr ((b, r₂), two) ↦
            let h₂ = rw (two, read_version) at h₁ in
            let (b', b_at, b_is, b_whole) = dotted-IsNumber r₁ two in
            elim (Option-cases (dotted r₂)) [
              | inl absent ↦
                  let (same, end) = pair_both (rw (absent, read_version) at h₂) in
                  (
                    whole
                        ∙ ap (λ l. a ++ l) b_whole
                        ∙ sym (append_assoc a b r₂)
                        ∙ ap (λ l. l ++ r₂) same
                        ∙ ap (λ l. v ++ l) end,
                    (a, b', a_is, b_is, inl (sym same ∙ ap (λ l. a ++ l) b_at)),
                  )
              | inr ((c, r₃), three) ↦
                  let (same, end) = pair_both (rw (three, read_version) at h₂) in
                  let (c', c_at, c_is, c_whole) = dotted-IsNumber r₂ three in
                  (
                    whole
                        ∙ ap (λ l. a ++ l) (b_whole ∙ ap (λ l. b ++ l) c_whole)
                        ∙ ap (λ l. a ++ l) (sym (append_assoc b c r₃))
                        ∙ sym (append_assoc a (b ++ c) r₃)
                        ∙ ap (λ l. l ++ r₃) same
                        ∙ ap (λ l. v ++ l) end,
                    (
                      a,
                      b',
                      a_is,
                      b_is,
                      inr (
                        c',
                        c_is,
                        sym same
                            ∙ ap (λ l. a ++ (l ++ c)) b_at
                            ∙ ap (λ l. a ++ ((46 ∷ b') ++ l)) c_at,
                      ),
                    ),
                  )
            ]
      ]
]

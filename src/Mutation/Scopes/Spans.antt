-- ===== src/Mutation/Scopes/Spans.antt =====
-- The spans of functions, and the lines that are exposed to the operators.
use binutils_mcs.Base.{
  append-nil, get_elem?-lt, ℕ, zero, suc, ◌+◌, ◌-◌, ◌≤◌, ◌<◌, ◌≡◌, refl, true, some, List, [], ◌∷◌,
  ◌++◌, All, All-append, arith, ltb, ◌==◌, length, get_elem?, Bool-cases, Option-cases, inl, inr,
}
use mathlib.Core.Path.{subst}
use mathlib.Core.Option.{some-injective}
use binutils_mcs.Base.Text.{Text}
use binutils_mcs.Base.Dict.{get, member}
use binutils_mcs.Mutation.Scopes.{
  opens_at, find_open, count_char, find_close, Span, name_at, span_at, functions_from, functions,
  range, scopes, scoped_spans, scoped_lines,
}

opens_at-lt : (lines : List Text) (k : ℕ) → opens_at lines k ≡ true → k < length lines
opens_at-lt lines k h = elim (Option-cases (get_elem? lines k)) [
  | inl absent ↦ cc (rw (absent, opens_at) at h)
  | inr (s, is) ↦ get_elem?-lt lines k is
]

find_open-bounds :
    (lines : List Text) (left j : ℕ) {k : ℕ}
    → find_open lines left j ≡ some k
    → (j ≤ k) × (k < length lines)
unfolding find_open
find_open-bounds lines zero j h = cc h
find_open-bounds lines (suc left) j {k} h = elim (Bool-cases (opens_at lines j)) [
  | inl here ↦
      let same : j ≡ k = some-injective j k (rw (here, find_open) at h) in
      subst (λ m. (j ≤ m) × (m < length lines)) same (omega arith, opens_at-lt lines j here)
  | inr other ↦
      let (low, high) = find_open-bounds lines left (suc j) (rw (other, find_open) at h) in
      (omega (arith, low), high)
]

find_close-bounds :
    (lines : List Text) (left k o c : ℕ)
    → k ≤ length lines
    → (k ≤ find_close lines left k o c) × (find_close lines left k o c ≤ length lines)
unfolding find_close
find_close-bounds lines zero k o c h = (omega arith, h)
find_close-bounds lines (suc left) k o c h = elim (Option-cases (get_elem? lines k)) [
  | inl absent ↦ rw (absent, find_close) (omega arith, h)
  | inr (s, is) ↦
      let o' = o + count_char b'{' s in
      let c' = c + count_char b'}' s in
      elim (Bool-cases (o' == c')) [
        | inl same ↦ rw (is, find_close) (rw same (omega arith, h))
        | inr other ↦
            let (low, high) =
              find_close-bounds lines left (suc k) o' c' (get_elem?-lt lines k is) in
            rw (is, find_close) (rw other (omega (arith, low), high))
      ]
]

-- The spans begin at `lo` or behind, none begins inside another, and none ends more than one line behind the file.
abbrev pub AreSpans : ℕ → ℕ → List Span → Type 0
AreSpans n lo [] = Unit {0}
AreSpans n lo (f ∷ fs) =
    (lo ≤ f.first) × (f.first ≤ f.last) × (f.last ≤ n) × AreSpans n (suc f.last) fs

span_at-bounds :
    (lines : List Text) (i : ℕ) {f : Span}
    → span_at lines i ≡ some f
    → (f.first ≡ i) × (i ≤ f.last) × (f.last ≤ length lines)
unfolding span_at
span_at-bounds lines i {f} h = elim (Option-cases (name_at lines i)) [
  | inl absent ↦ cc (rw (absent, span_at) at h)
  | inr (name, is) ↦ elim (Option-cases (find_open lines 14 i)) [
    | inl absent ↦ cc (rw (absent, span_at) at (rw (is, span_at) at h))
    | inr (j, open_at) ↦
        let (low, high) = find_open-bounds lines 14 i open_at in
        let (later, bound) = find_close-bounds lines (length lines) j 0 0 (omega (arith, high)) in
        let same = some-injective _ _ (rw (open_at, span_at) at (rw (is, span_at) at h)) in
        subst (λ (g : Span). (g.first ≡ i) × (i ≤ g.last) × (g.last ≤ length lines)) same
          (refl, omega (arith, low, later), bound)
  ]
]

functions_from-AreSpans :
    (lines : List Text) (left i : ℕ) → AreSpans (length lines) i (functions_from lines left i)
unfolding functions_from
functions_from-AreSpans lines zero i = tt
functions_from-AreSpans lines (suc left) i = elim (Bool-cases (ltb i (length lines))) [
  | inr behind ↦ rw (behind, functions_from) tt
  | inl inside ↦ elim (Option-cases (span_at lines i)) [
    | inl absent ↦
        rw (inside, functions_from)
          (rw absent (
            later lines i (functions_from lines left (suc i))
              (functions_from-AreSpans lines left (suc i))))
    | inr (f, is) ↦
        let (first, low, high) = span_at-bounds lines i is in
        rw (inside, functions_from)
          (rw is (
            omega (arith, first),
            omega (arith, first, low),
            high,
            functions_from-AreSpans lines left (suc f.last),
          ))
  ]
]
  where
    later :
        (lines : List Text) (i : ℕ) (fs : List Span)
        → AreSpans (length lines) (suc i) fs
        → AreSpans (length lines) i fs
    later lines i [] h = tt
    later lines i (f ∷ fs) (low, order, high, rest) = (omega (arith, low), order, high, rest)

-- The list rises from `lo` on.
abbrev pub Rises : ℕ → List ℕ → Type 0
Rises lo [] = Unit {0}
Rises lo (x ∷ xs) = (lo ≤ x) × Rises (suc x) xs

Rises-from : (lo hi : ℕ) (xs : List ℕ) → lo ≤ hi → Rises hi xs → Rises lo xs
Rises-from lo hi [] h r = tt
Rises-from lo hi (x ∷ xs) h (low, r) = (omega (arith, h, low), r)

range-Rises :
    (lo first n : ℕ) (xs : List ℕ)
    → lo ≤ first
    → Rises (first + n) xs
    → Rises lo (range first n ++ xs)
unfolding range
range-Rises lo first zero xs h r = Rises-from lo (first + 0) xs (omega (arith, h)) r
range-Rises lo first (suc n) xs h r = (
  h,
  range-Rises (suc first) (suc first) n xs (omega arith) (subst (λ m. Rises m xs) (omega arith) r),
)

range-All : (n first len : ℕ) → first + len ≤ suc n → All (λ i. i ≤ n) (range first len)
unfolding range
range-All n first zero h = tt
range-All n first (suc len) h = (omega (arith, h), range-All n (suc first) len (omega (arith, h)))

scoped_spans-Rises :
    (n lo : ℕ) (names : List Text) (fs : List Span)
    → AreSpans n lo fs
    → Rises lo (scoped_spans names fs) × All (λ i. i ≤ n) (scoped_spans names fs)
unfolding scoped_spans
scoped_spans-Rises n lo names [] h = (tt, tt)
scoped_spans-Rises n lo names (f ∷ fs) (low, order, high, rest) =
    let (rises, all) = scoped_spans-Rises n (suc f.last) names fs rest in
    elim (Bool-cases (member f.name names)) [
      | inl named ↦ rw named (
        range-Rises lo f.first (suc f.last - f.first) (scoped_spans names fs) low
            (subst (λ m. Rises m (scoped_spans names fs)) (omega (arith, order)) rises),
        All-append (λ i. i ≤ n) (range f.first (suc f.last - f.first)) (scoped_spans names fs)
            (range-All n f.first (suc f.last - f.first) (omega (arith, order, high))) all,
      )
      | inr other ↦ rw other (
        Rises-from lo (suc f.last) (scoped_spans names fs) (omega (arith, low, order)) rises,
        all,
      )
    ]

-- The functions that are found are spans that do not meet.
pub functions-AreSpans : (lines : List Text) → AreSpans (length lines) 0 (functions lines)
functions-AreSpans lines = functions_from-AreSpans lines (length lines) 0

-- The lines that are exposed rise, so that none is there twice, and none is more than one behind the last line.
pub scoped_lines-Rises :
    (key : Text) (lines : List Text)
    → Rises 0 (scoped_lines key lines) × All (λ i. i ≤ length lines) (scoped_lines key lines)
unfolding scoped_lines
scoped_lines-Rises key lines = elim (Option-cases (get key scopes)) [
  | inl absent ↦
      rw (absent, scoped_lines)
        (
          subst (Rises 0) (append-nil (range 0 (length lines)))
              (range-Rises 0 0 (length lines) [] (omega arith) tt),
          range-All (length lines) 0 (length lines) (omega arith),
        )
  | inr (names, is) ↦
      rw (is, scoped_lines)
        (scoped_spans-Rises (length lines) 0 names (functions lines) (functions-AreSpans lines))
]

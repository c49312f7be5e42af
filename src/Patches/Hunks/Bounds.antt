-- ===== src/Patches/Hunks/Bounds.antt =====
-- The hunks that `walk` finds.
use binutils_mcs.Base.{
  ℕ, ◌+◌, ◌≡◌, refl, ap, ◌∙◌, true, false, Option, none, some, List, [], ◌∷◌, map, arith,
  if◌then◌else◌, Bool-cases, inl, inr,
}
use binutils_mcs.Base.Bytes.{Bytes, codes, starts_with}
use binutils_mcs.Patches.Hunks.{
  Hunk, Walked, hunk_prefix, is_body, goes_on, closed, walk_from, walk, path_of,
}

-- The indices of the lines that begin a hunk of whatever form.
abbrev pub headers : ℕ → List Bytes → List ℕ
headers i [] = []
headers i (line ∷ lines) =
    if starts_with line (codes "@@ ") then i ∷ headers (i + 1) lines else headers (i + 1) lines

abbrev firsts : Walked → List ℕ
firsts w = map (λ (h : Hunk). h.first) w.hunks

abbrev opened : Option (ℕ × Option Bytes) → List ℕ → List ℕ
opened none is = is
opened (some (first, path)) is = first ∷ is

body-ne-header : (line : Bytes) → is_body line ≡ true → starts_with line (codes "@@ ") ≡ false
body-ne-header [] h = refl
body-ne-header (c ∷ cs) h = ground arith

goes_on-ne-header :
    (o : Option (ℕ × Option Bytes)) (line : Bytes)
    → goes_on o line ≡ true
    → starts_with line (codes "@@ ") ≡ false
goes_on-ne-header none line h = cc
goes_on-ne-header (some o) line h = body-ne-header line h

raised-closed :
    (o : Option (ℕ × Option Bytes)) (i : ℕ) (w : Walked) → (closed o i w).raised ≡ w.raised
raised-closed none i w = refl
raised-closed (some h) i w = refl

firsts-closed :
    (o : Option (ℕ × Option Bytes)) (i : ℕ) (w : Walked)
    → firsts (closed o i w) ≡ opened o (firsts w)
firsts-closed none i w = refl
firsts-closed (some h) i w = refl

walk_from-headers :
    (o : Option (ℕ × Option Bytes)) (before : Option Bytes) (i : ℕ) (lines : List Bytes)
    → (walk_from o before i lines).raised ≡ none
    → firsts (walk_from o before i lines) ≡ opened o (headers i lines)
unfolding walk_from
walk_from-headers o before i [] h = firsts-closed o i _
walk_from-headers o before i (line ∷ lines) h = elim (Bool-cases (goes_on o line)) [
  | inl body ↦
      rw (body, walk_from)
        (rw (goes_on-ne-header o line body)
          (walk_from-headers o (some line) (i + 1) lines (rw (body, walk_from) at h)))
  | inr out ↦ elim (Bool-cases (starts_with line (codes "@@ "))) [
    | inr plain ↦
        let raised = rw raised-closed at (rw (out, plain, walk_from) at h) in
        rw (out, plain, walk_from)
          (firsts-closed o i _
            ∙ ap (opened o) (walk_from-headers none (some line) (i + 1) lines raised))
    | inl header ↦ elim (Bool-cases (starts_with line hunk_prefix)) [
      | inr other ↦ cc (rw raised-closed at (rw (out, header, other, walk_from) at h))
      | inl hunk ↦
          let raised = rw raised-closed at (rw (out, header, hunk, walk_from) at h) in
          rw (out, header, hunk, walk_from)
            (firsts-closed o i _
              ∙ ap (opened o)
                  (walk_from-headers (some (i, path_of before)) (some line) (i + 1) lines raised))
    ]
  ]
]

-- A walk that does not raise yields one hunk for each line that begins one, in order: none is passed over.
pub walk-headers :
    (lines : List Bytes)
    → (walk lines).raised ≡ none
    → map (λ (h : Hunk). h.first) (walk lines).hunks ≡ headers 0 lines
walk-headers lines h = walk_from-headers none none 0 lines h

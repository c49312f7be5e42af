-- ===== src/Mutation/Coverage/Scored.antt =====
-- The rows that are scored, and the stages at which one fails, told from the file alone.
use binutils_mcs.Base.{
  ℕ, zero, suc, ◌≡◌, refl, sym, ap, ◌∙◌, Bool, true, false, not, ◌&&◌, ◌||◌, Option, none, some,
  List, [], ◌∷◌, ◌++◌, map, ◌==◌, if◌then◌else◌, arith,
}
use mathlib.Core.Path.{subst}
use binutils_mcs.Base.Bytes.{codes, equal}
use binutils_mcs.Base.Text.{Text}
use binutils_mcs.Base.Dict.{get, member}
use binutils_mcs.Mutation.Coverage.{Row, Sorted, is_red, is_scored, is_truncated, sort_rows}

abbrev pub Distinct : List Text → Type 0
Distinct [] = Unit
Distinct (s ∷ ss) = (member s ss ≡ false) × Distinct ss

abbrev pub ids_of : List Row → List Text
ids_of rs = map (λ (r : Row). r.id) rs

-- The row has an exit code for the stage that is not 0.
abbrev pub is_failure : Option ℕ → Bool
is_failure none = false
is_failure (some zero) = false
is_failure (some (suc n)) = true

abbrev pub fails : Row → Text → Bool
fails r s = is_failure (get s r.stages)

-- It fails at no stage of the list but this.
abbrev pub fails_nowhere_but : Text → List Text → Row → Bool
fails_nowhere_but s [] r = true
fails_nowhere_but s (t ∷ ts) r = (equal s t || not (fails r t)) && fails_nowhere_but s ts r

-- It was killed or survived, and has an exit code for every stage of the list.
abbrev pub has_code : Option ℕ → Bool
has_code none = false
has_code (some n) = true

abbrev pub has_codes : List Text → Row → Bool
has_codes [] r = true
has_codes (s ∷ ss) r = has_code (get s r.stages) && has_codes ss r

abbrev pub is_counted : List Text → Row → Bool
is_counted ss r =
    (equal r.status (codes "killed") || equal r.status (codes "survived")) && has_codes ss r

-- The ids of the rows that pass a test.
abbrev pub caught : (Row → Bool) → List Row → List Text
caught p [] = []
caught p (r ∷ rs) = (if p r then r.id ∷ [] else []) ++ caught p rs

failure_code : (o : Option ℕ) → not ((elim o [ none ↦ 0 | some rc ↦ rc ]) == 0) ≡ is_failure o
failure_code none = refl
failure_code (some zero) = refl
failure_code (some (suc n)) = ground arith

pub is_red-fails : (r : Row) (s : Text) → is_red r s ≡ fails r s
is_red-fails r s = failure_code (get s r.stages)

no_code : (o : Option ℕ) → not (elim o [ none ↦ false | some rc ↦ true ]) ≡ not (has_code o)
no_code none = refl
no_code (some n) = refl

not_or : (a b : Bool) → not (not a || b) ≡ (a && not b)
not_or true b = refl
not_or false b = refl

truncated-has_codes : (ss : List Text) (r : Row) → not (is_truncated ss r) ≡ has_codes ss r
truncated-has_codes [] r = refl
truncated-has_codes (s ∷ ss) r =
    ap (λ b. not (b || is_truncated ss r)) (no_code (get s r.stages))
    ∙ not_or (has_code (get s r.stages)) (is_truncated ss r)
    ∙ ap (λ b. has_code (get s r.stages) && b) (truncated-has_codes ss r)

sort_pick :
    (a b : Bool) (r : Row) (l i i' : List Row) (o o' : List Text)
    → (if◌then◌else◌ {A = Sorted}
        (not a)
        (record { scored = l; incomplete = i; other = o' })
        (if b
          then record { scored = l; incomplete = i'; other = o }
          else record { scored = r ∷ l; incomplete = i; other = o })).scored
      ≡ (if a && not b then r ∷ l else l)
sort_pick true true r l i i' o o' = refl
sort_pick true false r l i i' o o' = refl
sort_pick false b r l i i' o o' = refl

scored-cons :
    (ss : List Text) (r : Row) (rs : List Row)
    → (sort_rows ss (r ∷ rs)).scored
      ≡ (if is_counted ss r then r ∷ (sort_rows ss rs).scored else (sort_rows ss rs).scored)
unfolding sort_rows
scored-cons ss r rs =
    let rest = sort_rows ss rs in
    sort_pick (is_scored r) (is_truncated ss r) r rest.scored rest.incomplete (r ∷ rest.incomplete)
      rest.other (r.status ∷ rest.other)
    ∙ ap (λ b. if is_scored r && b then r ∷ rest.scored else rest.scored) (truncated-has_codes ss r)

caught_if :
    (b : Bool) (p : Row → Bool) (r : Row) (l : List Row)
    → caught p (if b then r ∷ l else l) ≡ (if b && p r then r.id ∷ [] else []) ++ caught p l
caught_if true p r l = refl
caught_if false p r l = refl

pub neither : (a : Bool) {b : Bool} → a || b ≡ false → (a ≡ false) × (b ≡ false)
neither true h = cc
neither false h = (refl, h)

member_if :
    (b : Bool) (j : Text) (r : Row) (l : List Row)
    → equal j r.id ≡ false
    → member j (ids_of l) ≡ false
    → member j (ids_of (if b then r ∷ l else l)) ≡ false
member_if true j r l h k = ap (λ e. e || member j (ids_of l)) h ∙ k
member_if false j r l h k = k

Distinct-if :
    (b : Bool) (r : Row) (l : List Row)
    → member r.id (ids_of l) ≡ false
    → Distinct (ids_of l)
    → Distinct (ids_of (if b then r ∷ l else l))
Distinct-if true r l h k = (h, k)
Distinct-if false r l h k = k

pub and_true : (b : Bool) → b && true ≡ b
and_true true = refl
and_true false = refl

pub and_false : (b : Bool) → b && false ≡ false
and_false true = refl
and_false false = refl

-- What is caught among the rows that are sorted out is caught among the counted ones.
pub caught-scored :
    (ss : List Text) (p : Row → Bool) (rs : List Row)
    → caught p (sort_rows ss rs).scored ≡ caught (λ r. is_counted ss r && p r) rs
unfolding sort_rows
caught-scored ss p [] = refl
caught-scored ss p (r ∷ rs) =
    ap (caught p) (scored-cons ss r rs)
    ∙ caught_if (is_counted ss r) p r (sort_rows ss rs).scored
    ∙ ap (λ ids. (if is_counted ss r && p r then r.id ∷ [] else []) ++ ids) (caught-scored ss p rs)

not_counted-scored :
    (j : Text) (ss : List Text) (rs : List Row)
    → member j (ids_of rs) ≡ false
    → member j (ids_of (sort_rows ss rs).scored) ≡ false
unfolding sort_rows
not_counted-scored j ss [] h = refl
not_counted-scored j ss (r ∷ rs) h =
    let (other, later) = neither (equal j r.id) h in
    ap (λ l. member j (ids_of l)) (scored-cons ss r rs)
    ∙ member_if (is_counted ss r) j r (sort_rows ss rs).scored other
        (not_counted-scored j ss rs later)

pub scored-Distinct :
    (ss : List Text) (rs : List Row)
    → Distinct (ids_of rs)
    → Distinct (ids_of (sort_rows ss rs).scored)
unfolding sort_rows
scored-Distinct ss [] h = tt
scored-Distinct ss (r ∷ rs) h =
    subst (λ l. Distinct (ids_of l)) (sym (scored-cons ss r rs))
      (Distinct-if (is_counted ss r) r (sort_rows ss rs).scored (not_counted-scored r.id ss rs h.0)
        (scored-Distinct ss rs h.1))

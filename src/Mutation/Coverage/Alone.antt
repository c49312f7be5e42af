-- ===== src/Mutation/Coverage/Alone.antt =====
-- The rows that fail at one stage alone, against the sets of red stages.
use binutils_mcs.Base.{
  ◌≡◌, refl, sym, ap, ◌∙◌, Bool, true, false, not, ◌&&◌, ◌||◌, Option, none, some, List, [], ◌∷◌,
  ◌++◌, ◌==◌, if◌then◌else◌, All, All-map, length, arith, Bool-cases, inl, inr,
}
use mathlib.Core.Path.{subst}
use binutils_mcs.Base.Bytes.{equal, equal_iff}
use binutils_mcs.Base.Text.{Text}
use binutils_mcs.Base.Dict.{Dict, put, get, member, get-put}
use binutils_mcs.Mutation.Coverage.{Row, is_red, red_at, red_of, reds, sort_rows}
use binutils_mcs.Mutation.Coverage.Scored.{
  Distinct, ids_of, fails, fails_nowhere_but, is_counted, caught, is_red-fails, neither, and_true,
  and_false, caught-scored, scored-Distinct,
}

member_text_if :
    (b : Bool) (s t : Text) (l : List Text)
    → equal s t ≡ false
    → member s l ≡ false
    → member s (if b then t ∷ l else l) ≡ false
member_text_if true s t l h k = ap (λ e. e || member s l) h ∙ k
member_text_if false s t l h k = k

length_if :
    (b : Bool) (t : Text) (l : List Text)
    → (length (if b then t ∷ l else l) == 0) ≡ (not b && (length l == 0))
length_if true t l = ground arith
length_if false t l = refl

length-one : (t : Text) (l : List Text) → (length (t ∷ l) == 1) ≡ (length l == 0)
length-one t l = ground arith

-- Lists of red stages of distinct ones.
red_of-absent :
    (s : Text) (ss : List Text) (r : Row) → member s ss ≡ false → member s (red_of ss r) ≡ false
unfolding red_of
red_of-absent s [] r h = refl
red_of-absent s (t ∷ ss) r h =
    let (other, later) = neither (equal s t) h in
    member_text_if (is_red r t && not (member t (red_of ss r))) s t (red_of ss r) other
      (red_of-absent s ss r later)

red_of-cons :
    (t : Text) (ss : List Text) (r : Row)
    → member t ss ≡ false
    → red_of (t ∷ ss) r ≡ (if is_red r t then t ∷ red_of ss r else red_of ss r)
unfolding red_of
red_of-cons t ss r h =
    ap (λ m. if is_red r t && not m then t ∷ red_of ss r else red_of ss r) (red_of-absent t ss r h)
    ∙ ap (λ b. if b then t ∷ red_of ss r else red_of ss r) (and_true (is_red r t))

fails_nowhere : List Text → Row → Bool
fails_nowhere [] r = true
fails_nowhere (t ∷ ts) r = not (fails r t) && fails_nowhere ts r

red_of-none :
    (ss : List Text) (r : Row) → Distinct ss → (length (red_of ss r) == 0) ≡ fails_nowhere ss r
unfolding fails_nowhere red_of
red_of-none [] r d = refl
red_of-none (t ∷ ss) r d =
    ap (λ (l : List Text). length l == 0) (red_of-cons t ss r d.0)
    ∙ length_if (is_red r t) t (red_of ss r)
    ∙ ap (λ b. not b && (length (red_of ss r) == 0)) (is_red-fails r t)
    ∙ ap (λ b. not (fails r t) && b) (red_of-none ss r d.1)

nowhere_absent :
    (s : Text) (ss : List Text) (r : Row)
    → member s ss ≡ false
    → fails_nowhere_but s ss r ≡ fails_nowhere ss r
unfolding fails_nowhere
nowhere_absent s [] r h = refl
nowhere_absent s (t ∷ ss) r h =
    let (other, later) = neither (equal s t) h in
    ap (λ e. (e || not (fails r t)) && fails_nowhere_but s ss r) other
    ∙ ap (λ b. not (fails r t) && b) (nowhere_absent s ss r later)

nowhere_present :
    (s : Text) (ss : List Text) (r : Row)
    → member s ss ≡ true
    → fails r s ≡ true
    → fails_nowhere ss r ≡ false
unfolding fails_nowhere
nowhere_present s [] r m f = cc
nowhere_present s (t ∷ ss) r m f = elim (Bool-cases (equal s t)) [
  | inl same ↦
      ap (λ u. not (fails r u) && fails_nowhere ss r) (sym ((equal_iff s t).0 same))
      ∙ ap (λ b. not b && fails_nowhere ss r) f
  | inr other ↦
      ap (λ b. not (fails r t) && b) (nowhere_present s ss r (rw other at m) f)
      ∙ and_false (not (fails r t))
]

red_of-one_other :
    (s t : Text) (ss : List Text) (r : Row)
    → Distinct ss
    → member s ss ≡ true
    → fails r s ≡ true
    → (length (red_of ss r) == 1) ≡ fails_nowhere_but s ss r
    → (length (if fails r t then t ∷ red_of ss r else red_of ss r) == 1)
      ≡ (not (fails r t) && fails_nowhere_but s ss r)
red_of-one_other s t ss r d m f ih = elim (Bool-cases (fails r t)) [
  | inr green ↦
      ap (λ b. length (if b then t ∷ red_of ss r else red_of ss r) == 1) green
      ∙ ih
      ∙ sym (ap (λ b. not b && fails_nowhere_but s ss r) green)
  | inl red ↦
      ap (λ b. length (if b then t ∷ red_of ss r else red_of ss r) == 1) red
      ∙ length-one t (red_of ss r)
      ∙ red_of-none ss r d
      ∙ nowhere_present s ss r m f
      ∙ sym (ap (λ b. not b && fails_nowhere_but s ss r) red)
]

pub red_of-one :
    (s : Text) (ss : List Text) (r : Row)
    → Distinct ss
    → member s ss ≡ true
    → fails r s ≡ true
    → (length (red_of ss r) == 1) ≡ fails_nowhere_but s ss r
red_of-one s [] r d m f = cc m
red_of-one s (t ∷ ss) r d m f =
    ap (λ (l : List Text). length l == 1) (red_of-cons t ss r d.0)
    ∙ ap (λ b. length (if b then t ∷ red_of ss r else red_of ss r) == 1) (is_red-fails r t)
    ∙ elim (Bool-cases (equal s t)) [
      | inl same ↦
          let is = (equal_iff s t).0 same in
          let red : fails r t ≡ true = ap (fails r) (sym is) ∙ f in
          let absent = subst (λ u. member u ss ≡ false) (sym is) d.0 in
          ap (λ b. length (if b then t ∷ red_of ss r else red_of ss r) == 1) red
          ∙ length-one t (red_of ss r)
          ∙ red_of-none ss r d.1
          ∙ sym (nowhere_absent s ss r absent)
          ∙ sym (ap (λ e. (e || not (fails r t)) && fails_nowhere_but s ss r) same)
      | inr other ↦
          let later : member s ss ≡ true = rw other at m in
          red_of-one_other s t ss r d.1 later f (red_of-one s ss r d.1 later f)
          ∙ sym (ap (λ e. (e || not (fails r t)) && fails_nowhere_but s ss r) other)
    ]

reds-other :
    (j : Text) (ss : List Text) (rs : List Row) (d : Dict (List Text))
    → member j (ids_of rs) ≡ false
    → get j (reds ss rs d) ≡ get j d
unfolding reds
reds-other j ss [] d h = refl
reds-other j ss (r ∷ rs) d h =
    let (other, later) = neither (equal j r.id) h in
    reds-other j ss rs (put r.id (red_of ss r) d) later
    ∙ get-put r.id j (red_of ss r) d
    ∙ ap (λ b. if b then some (red_of ss r) else get j d) other

-- With ids of their own, the rows have their red stages under them.
pub reds-All :
    (ss : List Text) (rs : List Row) (d : Dict (List Text))
    → Distinct (ids_of rs)
    → All (λ r. red_at (reds ss rs d) r ≡ red_of ss r) rs
unfolding reds
reds-All ss [] d h = tt
reds-All ss (r ∷ rs) d h = (
  ap (λ (o : Option (List Text)). elim o [ none ↦ [] | some red ↦ red ])
      (reds-other r.id ss rs (put r.id (red_of ss r) d) h.0
        ∙ get-put r.id r.id (red_of ss r) d
        ∙ ap (λ b. if b then some (red_of ss r) else get r.id d) ((equal_iff r.id r.id).1 refl)),
  reds-All ss rs (put r.id (red_of ss r) d) h.1,
)

caught_All :
    (p q : Row → Bool) (rs : List Row) → All (λ r. p r ≡ q r) rs → caught p rs ≡ caught q rs
caught_All p q [] h = refl
caught_All p q (r ∷ rs) h =
    ap (λ b. (if b then r.id ∷ [] else []) ++ caught p rs) h.0
    ∙ ap (λ ids. (if q r then r.id ∷ [] else []) ++ ids) (caught_All p q rs h.1)

every_row : {P : Row → Type 0} (rs : List Row) → ((r : Row) → P r) → All P rs
every_row [] h = tt
every_row (r ∷ rs) h = (h r, every_row rs h)

one_red :
    (s : Text) (ss red : List Text) (r : Row)
    → Distinct ss
    → member s ss ≡ true
    → red ≡ red_of ss r
    → ((length red == 1) && is_red r s) ≡ (fails r s && fails_nowhere_but s ss r)
one_red s ss red r d m is =
    ap (λ (l : List Text). (length l == 1) && is_red r s) is
    ∙ ap (λ b. (length (red_of ss r) == 1) && b) (is_red-fails r s)
    ∙ elim (Bool-cases (fails r s)) [
      | inr green ↦
          ap (λ b. (length (red_of ss r) == 1) && b) green
          ∙ and_false (length (red_of ss r) == 1)
          ∙ sym (ap (λ b. b && fails_nowhere_but s ss r) green)
      | inl fail ↦
          ap (λ b. (length (red_of ss r) == 1) && b) fail
          ∙ and_true (length (red_of ss r) == 1)
          ∙ red_of-one s ss r d m fail
          ∙ sym (ap (λ b. b && fails_nowhere_but s ss r) fail)
    ]

-- The tests of the code and those of the file catch the same rows.
pub caught-fails :
    (ss : List Text) (s : Text) (rs : List Row)
    → caught (λ r. is_red r s) (sort_rows ss rs).scored
      ≡ caught (λ r. is_counted ss r && fails r s) rs
caught-fails ss s rs =
    caught_All (λ r. is_red r s) (λ r. fails r s) (sort_rows ss rs).scored
      (every_row _ (λ r. is_red-fails r s))
    ∙ caught-scored ss (λ r. fails r s) rs

pub caught-alone :
    (ss : List Text) (s : Text) (rs : List Row)
    → Distinct ss
    → Distinct (ids_of rs)
    → member s ss ≡ true
    → caught
        (λ r. (length (red_at (reds ss (sort_rows ss rs).scored []) r) == 1) && is_red r s)
        (sort_rows ss rs).scored
      ≡ caught (λ r. is_counted ss r && (fails r s && fails_nowhere_but s ss r)) rs
caught-alone ss s rs d ids m =
    let scored = (sort_rows ss rs).scored in
    let red = reds ss scored [] in
    caught_All (λ r. (length (red_at red r) == 1) && is_red r s)
      (λ r. fails r s && fails_nowhere_but s ss r) scored
      (All-map (λ r is. one_red s ss (red_at red r) r d m is) scored
        (reds-All ss scored [] (scored-Distinct ss rs ids)))
    ∙ caught-scored ss (λ r. fails r s && fails_nowhere_but s ss r) rs

-- ===== src/Mutation/Report/Compared.antt =====
-- What the comparison of two runs lists.
use binutils_mcs.Base.{
  ℕ, suc, ◌+◌, ◌≡◌, refl, sym, ap, ◌∙◌, Bool, true, false, ◌&&◌, ◌||◌, none, some, List, [], ◌∷◌,
  arith, if◌then◌else◌, length, Bool-cases, inl, inr,
}
use mathlib.Core.Path.{subst}
use binutils_mcs.Base.Bytes.{codes, equal, equal_iff}
use binutils_mcs.Base.Text.{Text}
use binutils_mcs.Base.Dict.{Dict, get, put, member, get-put}
use binutils_mcs.Mutation.Report.{
  Entry, load_from, load, is_killed, is_survived, count_rows, rate, was, moved, newly, lost, live,
}

-- No key is there twice.
abbrev HasKeys : Dict Entry → Type 0
HasKeys [] = Unit {0}
HasKeys ((i, r) ∷ d) = (get i d ≡ none) × HasKeys d

get-put_other :
    (k j : Text) (v : Entry) (d : Dict Entry) → equal j k ≡ false → get j (put k v d) ≡ get j d
get-put_other k j v d h = get-put k j v d ∙ ap (λ b. if b then some v else get j d) h

flip : (i k : Text) → equal i k ≡ false → equal k i ≡ false
flip i k h = elim (Bool-cases (equal k i)) [
  | inr other ↦ other
  | inl same ↦ cc (sym ((equal_iff i k).1 (sym ((equal_iff k i).0 same))) ∙ h)
]

put-HasKeys : (k : Text) (v : Entry) (d : Dict Entry) → HasKeys d → HasKeys (put k v d)
unfolding put get
put-HasKeys k v [] h = (refl, tt)
put-HasKeys k v ((i, r) ∷ d) (new, h) = elim (Bool-cases (equal k i)) [
  | inl same ↦ rw (same, put) (new, h)
  | inr other ↦ rw (other, put) (get-put_other k i v d (flip k i other) ∙ new, put-HasKeys k v d h)
]

load_from-HasKeys : (d : Dict Entry) (rs : List Entry) → HasKeys d → HasKeys (load_from d rs)
unfolding load_from
load_from-HasKeys d [] h = h
load_from-HasKeys d (r ∷ rs) h = load_from-HasKeys (put r.id r d) rs (put-HasKeys r.id r d h)

moved-absent :
    (now past : Entry → Bool) (before after : Dict Entry) (i : Text)
    → get i after ≡ none
    → member i (moved now past before after) ≡ false
unfolding moved get
moved-absent now past before [] i h = refl
moved-absent now past before ((j, r) ∷ after) i h = elim (Bool-cases (equal i j)) [
  | inl same ↦ cc (rw (same, get) at h)
  | inr other ↦
      let later = moved-absent now past before after i (rw (other, get) at h) in
      elim (Bool-cases (now r && was past before j)) [
        | inl moves ↦ rw (moves, moved) (rw (other, later) refl)
        | inr stays ↦ rw (stays, moved) later
      ]
]

-- What is now what `now` asks for, and was what `past` asks for.
abbrev both : (Entry → Bool) → (Entry → Bool) → Dict Entry → Dict Entry → Text → Bool
both now past before after i = was now after i && was past before i

member-if :
    (i j : Text) (b : Bool) (ks : List Text)
    → member i (if b then j ∷ ks else ks) ≡ ((b && equal i j) || member i ks)
member-if i j true ks = refl
member-if i j false ks = refl

true_alone : (b : Bool) → ((b && true) || false) ≡ b
true_alone true = refl
true_alone false = refl

false_alone : (b c : Bool) → ((b && false) || c) ≡ c
false_alone true c = refl
false_alone false c = refl

was-head : (p : Entry → Bool) (j : Text) (r : Entry) (d : Dict Entry) → was p ((j, r) ∷ d) j ≡ p r
unfolding get
was-head p j r d = let e : equal j j ≡ true = (equal_iff j j).1 refl in rw (e, was) refl

was-tail :
    (p : Entry → Bool) (i j : Text) (r : Entry) (d : Dict Entry)
    → equal i j ≡ false
    → was p ((j, r) ∷ d) i ≡ was p d i
unfolding get
was-tail p i j r d h = rw (h, was) refl

moved-both :
    (now past : Entry → Bool) (before after : Dict Entry) (i : Text)
    → HasKeys after
    → member i (moved now past before after) ≡ both now past before after i
unfolding moved get
moved-both now past before [] i h = refl
moved-both now past before ((j, r) ∷ after) i (new, h) =
    let b = now r && was past before j in
    let rest = moved now past before after in
    member-if i j b rest ∙ elim (Bool-cases (equal i j)) [
      | inl same ↦
          let at : j ≡ i = sym ((equal_iff i j).0 same) in
          ap (λ e. (b && e) || member i rest) same
          ∙ ap (λ m. (b && true) || m)
              (moved-absent now past before after i (subst (λ k. get k after ≡ none) at new))
          ∙ true_alone b
          ∙ subst (λ k. b ≡ both now past before ((j, r) ∷ after) k) at
              (ap (λ x. x && was past before j) (sym (was-head now j r after)))
      | inr other ↦
          ap (λ e. (b && e) || member i rest) other
          ∙ false_alone b (member i rest)
          ∙ moved-both now past before after i h
          ∙ ap (λ x. x && was past before i) (sym (was-tail now i j r after other))
    ]

-- Of two runs, the mutants that the new stages caught are those that are killed now and survived before, and those
-- that are lost are those that survive now and were killed before.
pub newly-lost :
    (before after : List Entry) (i : Text)
    → (member i (newly (load before) (load after))
        ≡ (was is_killed (load after) i && was is_survived (load before) i))
      × (member i (lost (load before) (load after))
          ≡ (was is_survived (load after) i && was is_killed (load before) i))
newly-lost before after i =
    let keys = load_from-HasKeys [] after tt in
    (
      moved-both is_killed is_survived (load before) (load after) i keys,
      moved-both is_survived is_killed (load before) (load after) i keys,
    )

killed-survived : (r : Entry) → is_killed r ≡ true → is_survived r ≡ false
killed-survived r h =
    let is : r.status ≡ codes "killed" = (equal_iff r.status (codes "killed")).0 h in
    ap (λ t. equal t (codes "survived")) is

one_more :
    (a b : Bool) (r : Entry) (rs : List Entry) (n k : ℕ)
    → ((a ≡ true) → b ≡ false)
    → n ≡ k + length rs
    → ◌≡◌ {A = ℕ}
        (if a || b then suc n else n)
        ((if a then suc k else k) + length (if b then r ∷ rs else rs))
one_more true true r rs n k h e = cc (h refl)
one_more true false r rs n k h e = omega (arith, e)
one_more false true r rs n k h e = omega (arith, e)
one_more false false r rs n k h e = omega (arith, e)

-- The scored mutants are those that are killed and the survivors that are listed.
pub rate-live : (rows : Dict Entry) → (rate rows).1 ≡ (rate rows).0 + length (live rows)
unfolding count_rows live
rate-live [] = refl
rate-live ((i, r) ∷ d) =
    one_more (is_killed r) (is_survived r) r (live d) _ _ (killed-survived r) (rate-live d)

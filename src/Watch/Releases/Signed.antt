-- ===== src/Watch/Releases/Signed.antt =====
-- What `parse_index` takes for a release.
use binutils_mcs.Base.{
  ℕ, zero, suc, ◌-◌, ◌≤◌, ◌≡◌, refl, sym, ap, ◌∙◌, Bool, true, false, ◌&&◌, ◌||◌, Option, none,
  some, List, [], ◌∷◌, ◌++◌, arith, ltb, if◌then◌else◌, any, All, length, Bool-cases, Option-cases,
  inl, inr, ok,
}
use mathlib.Core.Option.{some-injective}
use mathlib.Core.Path.{subst}
use binutils_mcs.Base.Bytes.{codes, equal, equal_iff}
use binutils_mcs.Base.Text.{Text}
use binutils_mcs.Base.Dict.{Dict, get, put, keys, member, get-put}
use binutils_mcs.Base.Scan.{after, find_all}
use binutils_mcs.Watch.Releases.{
  min_releases, read_version, tarball_of, match_release, hrefs, tarballs, signed, parse_index,
}

find_all-All :
    {A : Type 0} (P : A → Type 0) (match : Text → Option (A × Text))
    → ((s : Text) (a : A) (rest : Text) → match s ≡ some (a, rest) → P a)
    → (skip : ℕ) (s : Text) → All P (find_all match skip s)
unfolding find_all
find_all-All P match h skip [] = tt
find_all-All P match h (suc skip) (c ∷ s) = find_all-All P match h skip s
find_all-All P match h zero (c ∷ s) = elim (Option-cases (match (c ∷ s))) [
  | inl other ↦ rw (other, find_all) (find_all-All P match h zero s)
  | inr ((a, rest), is) ↦
      rw (is, find_all) (h (c ∷ s) a rest is, find_all-All P match h (length s - length rest) s)
]

-- The name and the version of a tarball belong together.
abbrev IsNamed : Text × Text → Type 0
IsNamed (name, version) = name ≡ tarball_of version

match_release-IsNamed :
    (s : Text) (t : Text × Text) (rest : Text) → match_release s ≡ some (t, rest) → IsNamed t
unfolding match_release
match_release-IsNamed s t rest h = elim (Option-cases (after (codes "href=\"binutils-") s)) [
  | inl other ↦ cc (rw (other, match_release) at h)
  | inr (r, is) ↦ elim (Option-cases (read_version r)) [
    | inl other ↦ cc (rw (other, match_release) at (rw (is, match_release) at h))
    | inr ((w, r'), read) ↦ elim (Option-cases (after (codes ".tar.xz\"") r')) [
      | inl other ↦
          cc (
            rw (other, match_release) at
              (rw (read, match_release) at (rw (is, match_release) at h)))
      | inr (r'', ends) ↦
          let same = some-injective _ _ (
            rw (ends, match_release) at
              (rw (read, match_release) at (rw (is, match_release) at h))) in
          subst IsNamed (ap (λ (p : (Text × Text) × Text). p.0) same) refl
    ]
  ]
]

-- A release of `d` is one that was there, or a tarball of its version with its signature.
abbrev pub is_signed : List Text → List (Text × Text) → Text → Bool
is_signed known ts v = any (λ t. equal v t.1 && member (tarball_of v ++ codes ".sig") known) ts

and_true : (b : Bool) → b && true ≡ b
and_true true = refl
and_true false = refl

and_false : (b : Bool) → b && false ≡ false
and_false true = refl
and_false false = refl

either :
    {A : Type 0} (b c : Bool) (x y : A)
    → (if b then x else if c then x else y) ≡ (if c || b then x else y)
either true true x y = refl
either true false x y = refl
either false true x y = refl
either false false x y = refl

get-put_if :
    (m : Bool) (name w v : Text) (d : Dict Text)
    → get v (if m then put w name d else d) ≡ (if equal v w && m then some name else get v d)
get-put_if true name w v d =
    get-put w v name d ∙ ap (λ b. if b then some name else get v d) (sym (and_true (equal v w)))
get-put_if false name w v d =
    ap (λ b. if b then some name else get v d) (sym (and_false (equal v w)))

get-noted :
    (known : List Text) (name w : Text) (d : Dict Text) (v : Text)
    → IsNamed (name, w)
    → get v (if member (name ++ codes ".sig") known then put w name d else d) ≡ (
        if equal v w && member (tarball_of v ++ codes ".sig") known
        then some (tarball_of v)
        else get v d)
get-noted known name w d v named =
    get-put_if (member (name ++ codes ".sig") known) name w v d ∙ elim (Bool-cases (equal v w)) [
      | inr other ↦ rw other refl
      | inl same ↦
          let at : name ≡ tarball_of v = named ∙ ap tarball_of (sym ((equal_iff v w).0 same)) in
          ap (λ n. if equal v w && member (n ++ codes ".sig") known then some n else get v d) at
    ]

get-signed :
    (known : List Text) (ts : List (Text × Text)) (d : Dict Text) (v : Text)
    → All IsNamed ts
    → get v (signed known ts d) ≡ (if is_signed known ts v then some (tarball_of v) else get v d)
unfolding signed
get-signed known [] d v h = refl
get-signed known ((name, w) ∷ ts) d v (named, h) =
    get-signed known ts (if member (name ++ codes ".sig") known then put w name d else d) v h
    ∙ ap (λ o. if is_signed known ts v then some (tarball_of v) else o)
        (get-noted known name w d v named)
    ∙ either (is_signed known ts v) (equal v w && member (tarball_of v ++ codes ".sig") known)
        (some (tarball_of v)) (get v d)

tarballs-IsNamed : (html : Text) → All IsNamed (tarballs html)
tarballs-IsNamed html = find_all-All IsNamed match_release match_release-IsNamed 0 html

-- An index that is accepted has ten releases or more and the pinned one among them; and a version is released, under the
-- name of its tarball, exactly if the page links that tarball and its signature.
pub parse_index-IsSigned :
    (html pin_version : Text) {d : Dict Text}
    → parse_index html pin_version ≡ ok d
    → (10 ≤ length d)
      × (member pin_version (keys d) ≡ true)
      × ((v : Text)
          → get v d
            ≡ (if is_signed (hrefs html) (tarballs html) v then some (tarball_of v) else none))
unfolding parse_index get
parse_index-IsSigned html pin_version {d} h =
    let rs = signed (hrefs html) (tarballs html) [] in
    elim (Bool-cases (ltb (length rs) min_releases)) [
      | inl few ↦ cc (rw (few, parse_index) at h)
      | inr enough ↦ elim (Bool-cases (member pin_version (keys rs))) [
        | inr missing ↦ cc (rw (enough, missing, parse_index) at h)
        | inl listed ↦
            let same : rs ≡ d = cc (rw (enough, listed, parse_index) at h) in
            subst
              (λ d.
                (10 ≤ length d)
                × (member pin_version (keys d) ≡ true)
                × ((v : Text)
                    → get v d ≡ (
                        if is_signed (hrefs html) (tarballs html) v
                        then some (tarball_of v)
                        else none)))
              same
              (
                ground (arith, enough),
                listed,
                λ v. get-signed (hrefs html) (tarballs html) [] v (tarballs-IsNamed html),
              )
      ]
    ]

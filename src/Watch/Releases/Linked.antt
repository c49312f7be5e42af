-- ===== src/Watch/Releases/Linked.antt =====
-- Where the releases of `parse_index` stand in the page.
use binutils_mcs.Base.{
  ℕ, zero, suc, ◌-◌, ◌≤◌, ◌≡◌, refl, sym, ap, ◌∙◌, Bool, true, false, not, ◌&&◌, ◌==◌, Option, none,
  some, List, [], ◌∷◌, ◌++◌, if◌then◌else◌, any, All, length, Bool-cases, Option-cases, inl, inr,
  ok,
}
use mathlib.Core.Path.{subst}
use mathlib.Core.List.{append_assoc}
use binutils_mcs.Base.Bytes.{codes, equal, equal_iff}
use binutils_mcs.Base.Text.{Text}
use binutils_mcs.Base.Dict.{Dict, get, keys, member}
use binutils_mcs.Base.Scan.{after, run_of, find_all}
use binutils_mcs.Watch.Releases.{
  read_version, tarball_of, match_release, match_href, hrefs, tarballs, parse_index,
}
use binutils_mcs.Watch.Releases.Signed.{is_signed, parse_index-IsSigned}
use binutils_mcs.Watch.Releases.Spelling.{
  IsVersion, IsRun, after-some, run_of-IsRun, read_version-IsVersion,
}

-- The page has the text of a link to the name.
abbrev pub IsLinked : Text → Text → Type 0
IsLinked html name =
    (before : Text) × (behind : Text) × (html
      ≡ before ++ (codes "href=\"" ++ (name ++ (34 ∷ behind))))

-- A link to the name begins the text.
IsLink : Text → Text → Type 0
IsLink s name = (behind : Text) × (s ≡ codes "href=\"" ++ (name ++ (34 ∷ behind)))

abbrev IsRelease : Text → Text × Text → Type 0
IsRelease html (name, version) =
    (name ≡ codes "binutils-" ++ (version ++ codes ".tar.xz"))
    × IsVersion version
    × IsLinked html name

release_both :
    {a b : Text × Text} {c d : Text}
    → ◌≡◌ {A = Option ((Text × Text) × Text)} (some (a, c)) (some (b, d))
    → a ≡ b
release_both h = cc h

match_release-IsLink :
    (s : Text) (t : Text × Text) (rest : Text)
    → match_release s ≡ some (t, rest)
    → (t.0 ≡ codes "binutils-" ++ (t.1 ++ codes ".tar.xz")) × IsVersion t.1 × IsLink s t.0
unfolding match_release IsLink
match_release-IsLink s t rest h = elim (Option-cases (after (codes "href=\"binutils-") s)) [
  | inl other ↦ cc (rw (other, match_release) at h)
  | inr (r, is) ↦
      let h₁ = rw (is, match_release) at h in
      elim (Option-cases (read_version r)) [
        | inl other ↦ cc (rw (other, match_release) at h₁)
        | inr ((v, r'), read) ↦
            let h₂ = rw (read, match_release) at h₁ in
            let (whole, is_version) = read_version-IsVersion r read in
            elim (Option-cases (after (codes ".tar.xz\"") r')) [
              | inl other ↦ cc (rw (other, match_release) at h₂)
              | inr (r'', ends) ↦
                  let same = release_both (rw (ends, match_release) at h₂) in
                  subst
                    (λ (t : Text × Text).
                      (t.0 ≡ codes "binutils-" ++ (t.1 ++ codes ".tar.xz"))
                      × IsVersion t.1
                      × IsLink s t.0)
                    same
                    (
                      refl,
                      is_version,
                      (
                        r'',
                        after-some (codes "href=\"binutils-") s is
                            ∙ ap (λ l. codes "href=\"binutils-" ++ l)
                                (whole
                                  ∙ ap (λ l. v ++ l) (after-some (codes ".tar.xz\"") r' ends)
                                  ∙ sym (append_assoc v (codes ".tar.xz") (34 ∷ r''))),
                      ),
                    )
            ]
      ]
]

name_both : {a b c d : Text} → ◌≡◌ {A = Option (Text × Text)} (some (a, c)) (some (b, d)) → a ≡ b
name_both h = cc h

match_href-IsLink : (s : Text) (name rest : Text) → match_href s ≡ some (name, rest) → IsLink s name
unfolding match_href IsLink IsRun
match_href-IsLink s name rest h = elim (Option-cases (after (codes "href=\"") s)) [
  | inl other ↦ cc (rw (other, match_href) at h)
  | inr (r, is) ↦
      let h₁ = rw (is, match_href) at h in
      elim (Option-cases (run_of (λ c. not (c == b'"')) r)) [
        | inl other ↦ cc (rw (other, match_href) at h₁)
        | inr ((v, r'), read) ↦
            let h₂ = rw (read, match_href) at h₁ in
            elim (Option-cases (after (codes "\"") r')) [
              | inl other ↦ cc (rw (other, match_href) at h₂)
              | inr (r'', ends) ↦
                  subst (λ n. (behind : Text) × (s ≡ codes "href=\"" ++ (n ++ (34 ∷ behind))))
                    (name_both (rw (ends, match_href) at h₂))
                    (
                      r'',
                      after-some (codes "href=\"") s is
                          ∙ ap (λ l. codes "href=\"" ++ l)
                              ((run_of-IsRun _ r read).0
                                ∙ ap (λ l. v ++ l) (after-some (codes "\"") r' ends)),
                    )
            ]
      ]
]

-- What holds of each match inside the page holds of all that are found.
find_all-within :
    {A : Type 0} (P : A → Type 0) (match : Text → Option (A × Text)) (html : Text)
    → ((before s : Text) (a : A) (rest : Text)
        → html ≡ before ++ s
        → match s ≡ some (a, rest)
        → P a)
    → (skip : ℕ) (before s : Text) → html ≡ before ++ s
    → All P (find_all match skip s)
unfolding find_all
find_all-within P match html h skip before [] e = tt
find_all-within P match html h (suc skip) before (c ∷ s) e =
    find_all-within P match html h skip (before ++ c ∷ []) s
      (e ∙ sym (append_assoc before (c ∷ []) s))
find_all-within P match html h zero before (c ∷ s) e =
    let e' = e ∙ sym (append_assoc before (c ∷ []) s) in
    elim (Option-cases (match (c ∷ s))) [
      | inl other ↦
          rw (other, find_all) (find_all-within P match html h zero (before ++ c ∷ []) s e')
      | inr ((a, rest), is) ↦
          rw (is, find_all)
            (
              h before (c ∷ s) a rest e is,
              find_all-within P match html h (length s - length rest) (before ++ c ∷ []) s e',
            )
    ]

IsLink-IsLinked :
    (html before s name : Text) → html ≡ before ++ s → IsLink s name → IsLinked html name
unfolding IsLink
IsLink-IsLinked html before s name e (behind, is) = (before, behind, e ∙ ap (λ l. before ++ l) is)

tarballs-IsRelease : (html : Text) → All (IsRelease html) (tarballs html)
tarballs-IsRelease html =
    find_all-within (IsRelease html) match_release html
      (λ before s t rest e is.
        let (named, version, link) = match_release-IsLink s t rest is in
        (named, version, IsLink-IsLinked html before s t.0 e link))
      0 [] html refl

hrefs-IsLinked : (html : Text) → All (IsLinked html) (hrefs html)
hrefs-IsLinked html =
    find_all-within (IsLinked html) match_href html
      (λ before s name rest e is.
        IsLink-IsLinked html before s name e (match_href-IsLink s name rest is))
      0 [] html refl

member-All : (P : Text → Type 0) (v : Text) (ks : List Text) → member v ks ≡ true → All P ks → P v
member-All P v [] m all = cc m
member-All P v (k ∷ ks) m (here, all) = elim (Bool-cases (equal v k)) [
  | inl same ↦ subst P (sym ((equal_iff v k).0 same)) here
  | inr other ↦ member-All P v ks (rw other at m) all
]

any-All :
    {A : Type 0} (P : A → Type 0) (p : A → Bool) (xs : List A)
    → any p xs ≡ true
    → All P xs
    → (x : A) × P x × (p x ≡ true)
any-All P p [] h all = cc h
any-All P p (x ∷ xs) h (here, all) = elim (Bool-cases (p x)) [
  | inl is ↦ (x, here, is)
  | inr other ↦ any-All P p xs (rw other at h) all
]

both : (a b : Bool) → a && b ≡ true → (a ≡ true) × (b ≡ true)
both true b h = (refl, h)
both false b h = cc

-- A version with a tarball and a signature in the page.
pub record IsReleased (html version : Text) : Type 0 where
  pub numbered : IsVersion version
  pub tarball : IsLinked html (codes "binutils-" ++ (version ++ codes ".tar.xz"))
  pub signature :
      IsLinked html ((codes "binutils-" ++ (version ++ codes ".tar.xz")) ++ codes ".sig")

is_signed-IsReleased :
    (html v : Text) → is_signed (hrefs html) (tarballs html) v ≡ true → IsReleased html v
is_signed-IsReleased html v h =
    let ((name, w), (named, version, link), found) =
      any-All (IsRelease html) _ (tarballs html) h (tarballs-IsRelease html) in
    let (same, known) = both (equal v w) _ found in
    let is : v ≡ w = (equal_iff v w).0 same in
    record {
      numbered = subst IsVersion (sym is) version;
      tarball =
          subst (IsLinked html)
            (named ∙ ap (λ u. codes "binutils-" ++ (u ++ codes ".tar.xz")) (sym is)) link;
      signature =
          member-All (IsLinked html) (tarball_of v ++ codes ".sig") (hrefs html) known
            (hrefs-IsLinked html);
    }

some_same : {a b : Text} → ◌≡◌ {A = Option Text} (some a) (some b) → b ≡ a
some_same h = cc h

some_ends :
    (b : Bool) (x : Text) {y : Text} → (if b then some x else none) ≡ some y → (b ≡ true) × (y ≡ x)
some_ends true x h = (refl, some_same h)
some_ends false x h = cc h

-- An index that is accepted has ten releases or more, the pinned one among them. Each is of two or three numbers with dots
-- between, under the name of its tarball, and the page has the text of a link to that tarball and of one to its signature.
pub parse_index-AreLinked :
    (html pin_version : Text) {d : Dict Text}
    → parse_index html pin_version ≡ ok d
    → (10 ≤ length d)
      × (member pin_version (keys d) ≡ true)
      × ((v name : Text)
          → get v d ≡ some name
          → (name ≡ codes "binutils-" ++ (v ++ codes ".tar.xz")) × IsReleased html v)
parse_index-AreLinked html pin_version h =
    let (enough, pinned, found) = parse_index-IsSigned html pin_version h in
    (
      enough,
      pinned,
      λ v name is.
          let (signed, same) =
            some_ends (is_signed (hrefs html) (tarballs html) v) (tarball_of v)
              (sym (found v) ∙ is) in
          (same, is_signed-IsReleased html v signed),
    )

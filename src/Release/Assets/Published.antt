-- ===== src/Release/Assets/Published.antt =====
-- What a release that is published holds.
use binutils_mcs.Base.{
  ◌≡◌, ◌≢◌, refl, sym, ap, ◌∙◌, Bool, true, false, ◌||◌, Option, none, some, List, [], ◌∷◌, ◌++◌,
  All, if◌then◌else◌, append-nil_both, Bool-cases, inl, inr,
}
use mathlib.Core.Path.{subst}
use binutils_mcs.Base.Bytes.{equal_refl, Bytes, equal, equal_iff}
use binutils_mcs.Base.Text.{Text}
use binutils_mcs.Base.Dict.{get, member, get-put}
use binutils_mcs.Release.Archive.{Problem, Opened, Claim, check_archive}
use binutils_mcs.Release.Archive.Sound.{IsToolchain, check_archive-IsToolchain}
use binutils_mcs.Release.Assets.{
  Inputs, find_named, Taken, archive_name, patch_name, take_file, take_host, take_hosts, take_patch,
  take_patches,
}
use binutils_mcs.Release.Assets.Sums.{member-append}

-- A file of the release: its bytes, of which `P` holds, and its name among the assets.
abbrev pub Kept : (Text → Bytes → Type 0) → Taken → Text → Type 0
Kept P s n = (b : Bytes) × (get n s.out ≡ some b) × P n b × (member n s.assets ≡ true)

keep :
    (P : Text → Bytes → Type 0) (name n : Text) (b : Bytes) (ps : List Problem) (s : Taken)
    → (equal n name ≡ true → P n b)
    → Kept P s n
    → Kept P (take_file name b ps s) n
keep P name n b ps s new (old, has, is, listed) =
    let still : member n (s.assets ++ name ∷ []) ≡ true =
      rw (member-append n s.assets (name ∷ []), listed) refl in
    elim (Bool-cases (equal n name)) [
      | inl same ↦ (
        b,
        get-put name n b s.out ∙ ap (λ c. if c then some b else get n s.out) same,
        new same,
        still,
      )
      | inr other ↦ (
        old,
        get-put name n b s.out ∙ ap (λ c. if c then some b else get n s.out) other ∙ has,
        is,
        still,
      )
    ]

or_true : (a b : Bool) → b ≡ true → (a || b) ≡ true
or_true true b h = refl
or_true false b h = h

take_file-Kept :
    (P : Text → Bytes → Type 0) (name : Text) (b : Bytes) (ps : List Problem) (s : Taken)
    → P name b
    → Kept P (take_file name b ps s) name
take_file-Kept P name b ps s is = (
  b,
  get-put name name b s.out ∙ ap (λ c. if c then some b else get name s.out) (equal_refl name),
  is,
  member-append name s.assets (name ∷ [])
      ∙ or_true (member name s.assets) _ (ap (λ c. c || false) (equal_refl name)),
)

-- `dir` is the one directory of the walk that holds a file of the name.
pub record IsOnce (walk : List (Text × List Text)) (name dir : Text) : Type 0 where
  pub names : List Text
  pub before : List (Text × List Text)
  pub after : List (Text × List Text)
  pub whole : walk ≡ before ++ (dir, names) ∷ after
  pub holds : member name names ≡ true
  pub not_before : All (λ (d : Text × List Text). member name d.1 ≡ false) before
  pub not_after : All (λ (d : Text × List Text). member name d.1 ≡ false) after

find_named-nil :
    (walk : List (Text × List Text)) (name : Text)
    → find_named walk name ≡ []
    → All (λ (d : Text × List Text). member name d.1 ≡ false) walk
unfolding find_named
find_named-nil [] name h = tt
find_named-nil ((d, names) ∷ walk) name h = elim (Bool-cases (member name names)) [
  | inl there ↦ cc (rw (there, find_named) at h)
  | inr other ↦ (other, find_named-nil walk name (rw (other, find_named) at h))
]

cons_both : {a b : Text} {as' bs : List Text} → a ∷ as' ≡ b ∷ bs → (a ≡ b) × (as' ≡ bs)
cons_both h = (cc h, cc h)

find_named-IsOnce :
    (walk : List (Text × List Text)) (name dir : Text)
    → find_named walk name ≡ dir ∷ []
    → IsOnce walk name dir
unfolding find_named
find_named-IsOnce [] name dir h = cc h
find_named-IsOnce ((d, names) ∷ walk) name dir h = elim (Bool-cases (member name names)) [
  | inl there ↦
      let (same, rest) = cons_both (rw (there, find_named) at h) in
      record {
        names = names;
        before = [];
        after = walk;
        whole = ap (λ (e : Text). (e, names) ∷ walk) same;
        holds = there;
        not_before = tt;
        not_after = find_named-nil walk name rest;
      }
  | inr other ↦
      let later = find_named-IsOnce walk name dir (rw (other, find_named) at h) in
      record {
        names = later.names;
        before = (d, names) ∷ later.before;
        after = later.after;
        whole = ap (λ l. (d, names) ∷ l) later.whole;
        holds = later.holds;
        not_before = (other, later.not_before);
        not_after = later.not_after;
      }
]

module _ (w : Inputs) (c : Claim) where
  -- The bytes of the one build that has the name.
  abbrev pub IsBuild : Text → Bytes → Type 0
  IsBuild n b = (dir : Text) × IsOnce w.walk n dir × (b ≡ w.file dir n)

  -- The bytes of a patch that is published under the name.
  abbrev pub IsPatch : Text → Bytes → Type 0
  IsPatch n b = (src : Text) × (w.patch src ≡ some b) × (patch_name c src ≡ n) × (b ≢ [])

  -- One archive of the name is among the builds, and it is a toolchain of the release for the host.
  abbrev pub IsTaken : Text → Text → Type 0
  IsTaken host want =
      (dir : Text) × (o : Opened) × IsOnce w.walk want dir
      × (w.open_archive want (w.file dir want) ≡ some o)
      × IsToolchain c want host o

  refused : (ps : List Problem) (p : Problem) → ps ++ p ∷ [] ≡ [] → ⊥
  refused ps p h = cc (append-nil_both ps (p ∷ []) h).1

  abbrev checked : Text × Text → Text → List Problem
  checked h dir =
      let want = archive_name c h in
      check_archive c want h.0 (w.open_archive want (w.file dir want))

  -- A host without a problem has one archive, which is copied.
  take_host-one :
      (h : Text × Text) (s : Taken) (hits : List Text)
      → find_named w.walk (archive_name c h) ≡ hits
      → (take_host w c h s).problems ≡ []
      → (dir : Text) × (find_named w.walk (archive_name c h) ≡ dir ∷ [])
        × (take_host w c h s
            ≡ take_file (archive_name c h) (w.file dir (archive_name c h)) (checked h dir) s)
  unfolding take_host
  take_host-one (host, ext) s [] is e = absurd (refused s.problems _ (rw (is, take_host) at e))
  take_host-one (host, ext) s (dir ∷ []) is e = (dir, is, rw (is, take_host) refl)
  take_host-one (host, ext) s (dir ∷ other ∷ dirs) is e =
      absurd (refused s.problems _ (rw (is, take_host) at e))

  take_host-IsTaken :
      (h : Text × Text) (s : Taken)
      → (take_host w c h s).problems ≡ []
      → (s.problems ≡ [])
        × IsTaken h.0 (archive_name c h)
        × Kept IsBuild (take_host w c h s) (archive_name c h)
        × ((n : Text) → Kept IsBuild s n → Kept IsBuild (take_host w c h s) n)
  take_host-IsTaken h s e =
      let want = archive_name c h in
      let (dir, is, done) = take_host-one h s _ refl e in
      let (before, sound) =
        append-nil_both s.problems (checked h dir)
          (sym (ap (λ (t : Taken). t.problems) done) ∙ e) in
      let (o, opened, toolchain) =
        check_archive-IsToolchain c want h.0 (w.open_archive want (w.file dir want)) sound in
      let once = find_named-IsOnce w.walk want dir is in
      let right : IsBuild want (w.file dir want) = (dir, once, refl) in
      (
        before,
        (dir, o, once, opened, toolchain),
        subst (λ t. Kept IsBuild t want) (sym done)
            (take_file-Kept IsBuild want (w.file dir want) (checked h dir) s right),
        (λ n k.
            subst (λ t. Kept IsBuild t n) (sym done)
              (keep IsBuild want n (w.file dir want) (checked h dir) s
                (λ same.
                  subst (λ m. IsBuild m (w.file dir want)) (sym ((equal_iff n want).0 same)) right)
                k)),
      )

  -- All hosts of the matrix.
  pub take_hosts-IsTaken :
      (hs : List (Text × Text)) (s : Taken)
      → (take_hosts w c hs s).problems ≡ []
      → (s.problems ≡ [])
        × All
            (λ h.
              IsTaken h.0 (archive_name c h)
              × Kept IsBuild (take_hosts w c hs s) (archive_name c h))
            hs
        × ((n : Text) → Kept IsBuild s n → Kept IsBuild (take_hosts w c hs s) n)
  unfolding take_hosts
  take_hosts-IsTaken [] s e = (e, tt, λ n k. k)
  take_hosts-IsTaken (h ∷ hs) s e =
      let (mid, all, later) = take_hosts-IsTaken hs (take_host w c h s) e in
      let (before, taken, here, step) = take_host-IsTaken h s mid in
      (before, ((taken, later (archive_name c h) here), all), λ n k. later n (step n k))

  -- A patch without a problem is there, is not empty, and is copied.
  take_patch-one :
      (src : Text) (s : Taken) (found : Option Bytes)
      → w.patch src ≡ found
      → (take_patch w c src s).problems ≡ []
      → (b : Bytes) × (w.patch src ≡ some b)
        × (b ≢ [])
        × (take_patch w c src s ≡ take_file (patch_name c src) b [] s)
  unfolding take_patch
  take_patch-one src s none is e = absurd (refused s.problems _ (rw (is, take_patch) at e))
  take_patch-one src s (some []) is e = absurd (refused s.problems _ (rw (is, take_patch) at e))
  take_patch-one src s (some (b ∷ bs)) is e = (b ∷ bs, is, (λ z. cc z), rw (is, take_patch) refl)

  -- What is kept of the archives, and of the patches, behind a patch.
  take_patch-IsPatch :
      (src : Text) (s : Taken)
      → (take_patch w c src s).problems ≡ []
      → (s.problems ≡ [])
        × Kept IsPatch (take_patch w c src s) (patch_name c src)
        × ((n : Text) → Kept IsPatch s n → Kept IsPatch (take_patch w c src s) n)
        × ((h : Text × Text)
            → Kept IsBuild s (archive_name c h)
            → Kept IsBuild (take_patch w c src s) (archive_name c h))
  take_patch-IsPatch src s e =
      let name = patch_name c src in
      let (b, found, not_empty, done) = take_patch-one src s _ refl e in
      let (before, _) =
        append-nil_both s.problems [] (sym (ap (λ (t : Taken). t.problems) done) ∙ e) in
      (
        before,
        subst (λ t. Kept IsPatch t name) (sym done)
            (take_file-Kept IsPatch name b [] s (src, found, refl, not_empty)),
        (λ n k.
            subst (λ t. Kept IsPatch t n) (sym done)
              (keep IsPatch name n b [] s
                (λ same. (src, found, sym ((equal_iff n name).0 same), not_empty)) k)),
        (λ h k.
            subst (λ t. Kept IsBuild t (archive_name c h)) (sym done)
              (keep IsBuild name (archive_name c h) b [] s (λ same. cc same) k)),
      )

  pub take_patches-IsPatch :
      (srcs : List Text) (s : Taken)
      → (take_patches w c srcs s).problems ≡ []
      → (s.problems ≡ [])
        × All (λ src. Kept IsPatch (take_patches w c srcs s) (patch_name c src)) srcs
        × ((n : Text) → Kept IsPatch s n → Kept IsPatch (take_patches w c srcs s) n)
        × ((h : Text × Text)
            → Kept IsBuild s (archive_name c h)
            → Kept IsBuild (take_patches w c srcs s) (archive_name c h))
  unfolding take_patches
  take_patches-IsPatch [] s e = (e, tt, (λ n k. k), λ h k. k)
  take_patches-IsPatch (src ∷ srcs) s e =
      let (mid, all, patches, builds) = take_patches-IsPatch srcs (take_patch w c src s) e in
      let (before, here, still, archives) = take_patch-IsPatch src s mid in
      (
        before,
        (patches (patch_name c src) here, all),
        (λ n k. patches n (still n k)),
        λ h k. builds h (archives h k),
      )

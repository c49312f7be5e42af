-- ===== src/Release/Assets/Status.antt =====
-- What exit status 0 of tb/release_manifest.py stands for.
use binutils_mcs.Base.{
  ℕ, ◌≡◌, ◌≢◌, refl, sym, ap, ◌∙◌, true, false, none, some, List, [], ◌∷◌, ◌++◌, All, All-map,
  Option, ◌⊎◌, Bool-cases, Option-cases, inl, inr, if◌then◌else◌, append-nil_both, Result, ok, err,
  >>=-eq-ok,
}
use mathlib.Core.Path.{subst}
use binutils_mcs.Base.Bytes.{Bytes, codes, equal, equal_iff}
use binutils_mcs.Base.Text.{join_lines, basename, Text}
use binutils_mcs.Base.Dict.{Dict, get, put, member, get-put}
use binutils_mcs.Release.Archive.{Problem, no_patches, Claim}
use binutils_mcs.Release.Assets.{
  Inputs, BadMatrix, pack_ext, pack_of, empty_matrix, hosts_from_workflow, read_hosts, Taken,
  archive_name, patch_name, sorted, take_hosts, take_patches, refuse, some_patch, sum_line,
  sum_lines, publish, main,
}
use binutils_mcs.Release.Assets.Sums.{member-sorted, member-map}
use binutils_mcs.Release.Assets.Published.{
  Kept, IsBuild, IsPatch, IsTaken, take_hosts-IsTaken, take_patches-IsPatch,
}

-- The suffix of the archive that an entry asks for.
abbrev pub HasSuffix : Option Text → Text → Type 0
HasSuffix none ext = ext ≡ codes ".tar.gz"
HasSuffix (some pack) ext =
    ((pack ≡ codes "tar") × (ext ≡ codes ".tar.gz")) ⊎ ((pack ≡ codes "zip") × (ext ≡ codes ".zip"))

-- Entry for entry, the host and the suffix of its archive.
abbrev pub AreHosts : List (Text × Option Text) → List (Text × Text) → Type 0
AreHosts [] [] = Unit
AreHosts ((name, pack) ∷ entries) ((host, ext) ∷ hosts) =
    (name ≡ host) × HasSuffix pack ext × AreHosts entries hosts
AreHosts _ _ = ⊥

some_same : {a b : Text} → ◌≡◌ {A = Option Text} (some a) (some b) → b ≡ a
some_same h = cc h

pack_ext-HasSuffix : (pack ext : Text) → get pack pack_ext ≡ some ext → HasSuffix (some pack) ext
unfolding get
pack_ext-HasSuffix pack ext h = elim (Bool-cases (equal pack (codes "tar"))) [
  | inl tar ↦ inl ((equal_iff pack (codes "tar")).0 tar, some_same (rw (tar, get) at h))
  | inr other ↦ elim (Bool-cases (equal pack (codes "zip"))) [
    | inl zip ↦
        inr (
          (equal_iff pack (codes "zip")).0 zip,
          some_same (rw (zip, get) at (rw (other, get) at h)),
        )
    | inr neither ↦ cc (rw (neither, get) at (rw (other, get) at h))
  ]
]

entry-HasSuffix :
    (pack : Option Text) (ext : Text) → get (pack_of pack) pack_ext ≡ some ext → HasSuffix pack ext
entry-HasSuffix none ext h = unfold get in some_same h
entry-HasSuffix (some pack) ext h = pack_ext-HasSuffix pack ext h

same_list :
    {a b : List (Text × Text)}
    → ◌≡◌ {A = Result BadMatrix (List (Text × Text))} (ok a) (ok b)
    → a ≡ b
same_list h = cc h

read_hosts-AreHosts :
    (entries : List (Text × Option Text)) (hosts : List (Text × Text))
    → read_hosts entries ≡ ok hosts
    → AreHosts entries hosts
unfolding read_hosts
read_hosts-AreHosts [] hosts h = subst (AreHosts []) (same_list h) tt
read_hosts-AreHosts ((name, pack) ∷ entries) hosts h =
    elim (Option-cases (get (pack_of pack) pack_ext)) [
      | inl unknown ↦ cc (rw (unknown, read_hosts) at h)
      | inr (ext, is) ↦
          let (rest, read, end) = >>=-eq-ok (read_hosts entries) _ (rw (is, read_hosts) at h) in
          subst (AreHosts ((name, pack) ∷ entries)) (same_list end)
            (refl, entry-HasSuffix pack ext is, read_hosts-AreHosts entries rest read)
    ]

ended_same :
    (found : List (Text × Text)) {hosts : List (Text × Text)}
    → ◌≡◌ {A = Result BadMatrix (List (Text × Text))}
        (elim found [ [] ↦ err empty_matrix | h ∷ hs ↦ ok (h ∷ hs) ])
        (ok hosts)
    → found ≡ hosts
ended_same [] r = cc r
ended_same (h ∷ hs) r = same_list r

hosts-AreHosts :
    (entries : List (Text × Option Text)) (hosts : List (Text × Text))
    → hosts_from_workflow entries ≡ ok hosts
    → AreHosts entries hosts
unfolding hosts_from_workflow
hosts-AreHosts entries hosts e =
    let (found, read, rest) = >>=-eq-ok (read_hosts entries) _ e in
    subst (AreHosts entries) (ended_same found rest) (read_hosts-AreHosts entries found read)

-- The names of the files of a release.
abbrev pub toolchain_file : Text → Text × Text → Text
toolchain_file version (host, ext) =
    codes "i51-binutils-" ++ (version ++ (codes "-" ++ (host ++ ext)))

abbrev pub patch_file : Text → Text → Text
patch_file version src = codes "binutils-" ++ (version ++ (codes "-mcs51-" ++ basename src))

module _ (w : Inputs) (c : Claim) where
  -- A file of the release with bytes of which `P` holds, and with its sum in a line of its own.
  abbrev pub IsListed : (Text → Bytes → Type 0) → Dict Bytes → List Text → Text → Type 0
  IsListed P out sums n =
      (b : Bytes) × (get n out ≡ some b)
      × P n b
      × (member (w.sha256 b ++ (codes "  " ++ n)) sums ≡ true)

  -- A release: for each host of the matrix, of which there is one, the toolchain that was built for it; under the name of
  -- each patch, of which there is one, a patch of that name; and SHA256SUMS with the sum of every one of these files.
  pub record IsReleased (out : Dict Bytes) : Type 0 where
    pub hosts : List (Text × Text)
    pub matrix : AreHosts w.include hosts
    pub some_host : hosts ≢ []
    pub sums : List Text
    pub written : get (codes "SHA256SUMS") out ≡ some (join_lines sums)
    pub archives :
        All
          (λ h.
            IsTaken w c h.0 (toolchain_file c.version h)
            × IsListed (IsBuild w c) out sums (toolchain_file c.version h))
          hosts
    pub given_patch : c.patches ≢ []
    pub patches : All (λ src. IsListed (IsPatch w c) out sums (patch_file c.version src)) c.patches

  listed :
      (P : Text → Bytes → Type 0) (s : Taken) (n text : Text)
      → equal n (codes "SHA256SUMS") ≡ false
      → Kept P s n
      → IsListed P (put (codes "SHA256SUMS") text s.out) (sum_lines w c s) n
  listed P s n text other (b, has, is, asset) = (
    b,
    get-put (codes "SHA256SUMS") n text s.out
        ∙ ap (λ d. if d then some text else get n s.out) other
        ∙ has,
    is,
    subst
        (λ o.
          member ((elim o [ none ↦ [] | some a ↦ w.sha256 a ]) ++ (codes "  " ++ n))
            (sum_lines w c s)
          ≡ true)
        has
        (member-map (sum_line w c s.out) n (sorted s.assets) (member-sorted n s.assets ∙ asset)),
  )

  publish-zero :
      (s : Taken) (problems : List Problem) {out : Dict Bytes}
      → s.problems ≡ problems
      → publish w c s ≡ (0, out)
      → (s.problems ≡ []) × (put (codes "SHA256SUMS") (join_lines (sum_lines w c s)) s.out ≡ out)
  unfolding publish
  publish-zero s [] is e = (is, ap (λ (r : ℕ × Dict Bytes). r.1) (rw (is, publish) at e))
  publish-zero s (p ∷ ps) is e = cc (rw (is, publish) at e)

  given :
      (srcs : List Text) (s : Taken)
      → (elim srcs as (λ _. Taken) [ [] ↦ refuse no_patches s | src ∷ rest ↦ s ]).problems ≡ []
      → (srcs ≢ [])
        × ((elim srcs as (λ _. Taken) [ [] ↦ refuse no_patches s | src ∷ rest ↦ s ]) ≡ s)
  given [] s e = absurd (cc (append-nil_both s.problems (no_patches ∷ []) e).1)
  given (src ∷ srcs) s e = ((λ z. cc z), refl)

  ended :
      (found : List (Text × Text)) {hosts : List (Text × Text)}
      → ◌≡◌ {A = Result BadMatrix (List (Text × Text))}
          (elim found [ [] ↦ err empty_matrix | h ∷ hs ↦ ok (h ∷ hs) ])
          (ok hosts)
      → hosts ≢ []
  ended [] r z = cc r
  ended (h ∷ hs) r z = cc (r, z)

  hosts-some : {hosts : List (Text × Text)} → hosts_from_workflow w.include ≡ ok hosts → hosts ≢ []
  unfolding hosts_from_workflow
  hosts-some e = let (found, read, rest) = >>=-eq-ok (read_hosts w.include) _ e in ended found rest

  -- With exit status 0 the matrix has an entry, each for a .tar.gz or a .zip, and a patch is given. For each entry exactly
  -- one directory of the downloads has its archive, which is a toolchain whose BUILD-INFO.txt has the claimed version, sha256,
  -- commit and host, and its bytes are written; each patch name is written with the
  -- bytes of a patch of that name, which are not none; and SHA256SUMS has a line with the sum for each of these files.
  pub main-IsReleased : {out : Dict Bytes} → main w c ≡ ok (0, out) → IsReleased out
  unfolding main
  main-IsReleased {out} e =
      let (hosts, matrix, rest) = >>=-eq-ok (hosts_from_workflow w.include) _ e in
      let s = take_hosts w c hosts (record { problems = []; out = []; assets = [] }) in
      let t = take_patches w c c.patches (some_patch w c s) in
      let (quiet, same) = publish-zero t t.problems refl (cc rest) in
      let (start, patched, _, builds) =
        take_patches-IsPatch w c c.patches (some_patch w c s) quiet in
      let (some_given, as_before) = given c.patches s start in
      let (_, taken, _) =
        take_hosts-IsTaken w c hosts (record { problems = []; out = []; assets = [] })
          (subst (λ (u : Taken). u.problems ≡ []) as_before start) in
      subst IsReleased same (record {
        hosts = hosts;
        matrix = hosts-AreHosts w.include hosts matrix;
        some_host = hosts-some matrix;
        sums = sum_lines w c t;
        written = get-put (codes "SHA256SUMS") (codes "SHA256SUMS") _ t.out;
        archives =
            All-map
              (λ h k. (
                k.0,
                listed (IsBuild w c) t (archive_name c h) _ refl (
                    builds h
                      (subst (λ u. Kept (IsBuild w c) u (archive_name c h)) (sym as_before) k.1)),
              ))
              hosts taken;
        given_patch = some_given;
        patches =
            All-map (λ src k. listed (IsPatch w c) t (patch_name c src) _ refl k) c.patches patched;
      })

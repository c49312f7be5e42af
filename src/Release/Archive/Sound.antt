-- ===== src/Release/Archive/Sound.antt =====
-- What an archive without a problem holds.
use binutils_mcs.Base.{
  ◌≡◌, ◌⊎◌, ◌||◌, arith, refl, sym, ap, ◌∙◌, Bool, true, false, Option, none, some, List, [], ◌∷◌,
  ◌++◌, any, All, if◌then◌else◌, append-nil_both, Bool-cases, Option-cases, inl, inr,
}
use binutils_mcs.Base.Bytes.{codes, equal, equal_iff, starts_with}
use binutils_mcs.Base.Text.{Text}
use binutils_mcs.Base.Dict.{Dict, get, member}
use binutils_mcs.Release.Archive.{
  Problem, lacks_copying, lacks_info, Opened, Claim, kept_names, is_only, stem_of, inside_of,
  present, parse_build_info, wanted, is_field, tool_of, check_fields, check_tools, check_info,
  check_inside, check_archive,
}

-- The program stands in `bin`, as it is or as an .exe.
abbrev pub HasTool : List Text → Text → Type 0
HasTool inside tool =
    (member (codes "bin/" ++ tool) inside ≡ true)
    ⊎ (member ((codes "bin/" ++ tool) ++ codes ".exe") inside ≡ true)

member-cons : (k n : Text) (ns : List Text) → member k ns ≡ true → member k (n ∷ ns) ≡ true
member-cons k n ns h = ground (arith, h)

member-head : (k n : Text) (ns : List Text) → equal n k ≡ true → member k (n ∷ ns) ≡ true
member-head k n ns h =
    let same : n ≡ k = (equal_iff n k).0 h in
    let here : equal k n ≡ true = (equal_iff k n).1 (sym same) in ap (λ b. b || member k ns) here

present-HasTool :
    (inside : List Text) (tool : Text)
    → present inside (codes "bin/" ++ tool) ≡ true
    → HasTool inside tool
present-HasTool [] tool h = cc h
present-HasTool (n ∷ ns) tool h =
    let name = codes "bin/" ++ tool in
    elim (Bool-cases (equal n name)) [
      | inl plain ↦ inl (member-head name n ns plain)
      | inr other ↦ elim (Bool-cases (equal n (name ++ codes ".exe"))) [
        | inl exe ↦ inr (member-head (name ++ codes ".exe") n ns exe)
        | inr neither ↦
            let more : present ns name ≡ true =
              sym (
                ap (λ b. (b || equal n (name ++ codes ".exe")) || present ns name) other
                ∙ ap (λ b. b || present ns name) neither)
              ∙ h in
            elim (present-HasTool ns tool more) [
              | inl there ↦ inl (member-cons name n ns there)
              | inr there ↦ inr (member-cons (name ++ codes ".exe") n ns there)
            ]
      ]
    ]

-- A toolchain of the release: one directory with the name of the archive, with an assembler and a linker for the target and
-- a licence, and the four fields of its BUILD-INFO.txt as they are claimed.
pub record IsToolchain (c : Claim) (path host : Text) (o : Opened) : Type 0 where
  pub one_top : is_only (stem_of path) (kept_names o.names) ≡ true
  pub has_as : HasTool (inside_of (stem_of path) (kept_names o.names)) (c.target ++ codes "-as")
  pub has_ld : HasTool (inside_of (stem_of path) (kept_names o.names)) (c.target ++ codes "-ld")
  pub has_copying :
      any (λ n. starts_with n (codes "COPYING")) (inside_of (stem_of path) (kept_names o.names))
      ≡ true
  pub info : Text
  pub read_info : o.read (stem_of path ++ codes "/BUILD-INFO.txt") ≡ some info
  pub upstream : get (codes "upstream-binutils") (parse_build_info info) ≡ some c.version
  pub sha256 : get (codes "upstream-sha256") (parse_build_info info) ≡ some c.sha256
  pub commit : get (codes "port-commit") (parse_build_info info) ≡ some c.commit
  pub same_host : get (codes "host") (parse_build_info info) ≡ some host

quiet : {b : Bool} (p : Problem) → ◌≡◌ {A = List Problem} (if b then [] else p ∷ []) [] → b ≡ true
quiet {b} p h = elim (Bool-cases b) [ inl good ↦ good | inr bad ↦ cc (rw bad at h) ]

is_field-get :
    (d : Dict Text) (key want : Text) → is_field d (key, want) ≡ true → get key d ≡ some want
is_field-get d key want h = elim (Option-cases (get key d)) [
  | inl absent ↦ cc (rw (absent, is_field) at h)
  | inr (got, is) ↦ is ∙ ap some ((equal_iff got want).0 (rw (is, is_field) at h))
]

check_fields-nil :
    (host : Text) (d : Dict Text) (fs : List (Text × Text))
    → check_fields host d fs ≡ []
    → All (λ (f : Text × Text). get f.0 d ≡ some f.1) fs
unfolding check_fields
check_fields-nil host d [] h = tt
check_fields-nil host d ((key, want) ∷ fs) h =
    let (here, rest) =
      append-nil_both (if is_field d (key, want) then [] else _) (check_fields host d fs) h in
    (is_field-get d key want (quiet _ here), check_fields-nil host d fs rest)

check_tools-nil :
    (c : Claim) (host : Text) (inside ts : List Text)
    → check_tools c host inside ts ≡ []
    → All (λ t. present inside (tool_of c t) ≡ true) ts
unfolding check_tools
check_tools-nil c host inside [] h = tt
check_tools-nil c host inside (t ∷ ts) h =
    let (here, rest) =
      append-nil_both (if present inside (tool_of c t) then [] else _)
        (check_tools c host inside ts) h in
    (quiet _ here, check_tools-nil c host inside ts rest)

check_info-nil :
    (c : Claim) (host : Text) (read : Option Text)
    → check_info c host read ≡ []
    → (text : Text) × (read ≡ some text)
      × All (λ (f : Text × Text). get f.0 (parse_build_info text) ≡ some f.1) (wanted c host)
unfolding check_info
check_info-nil c host none h = cc h
check_info-nil c host (some text) h =
    (text, refl, check_fields-nil host (parse_build_info text) (wanted c host) h)

info_found :
    (b : Bool) (ps qs : List Problem) (p : Problem)
    → qs ≡ p ∷ []
    → (if b then ps else qs) ≡ []
    → ps ≡ []
info_found true ps qs p e h = h
info_found false ps qs p e h = cc (sym e ∙ h)

-- An archive without a problem is opened and is a toolchain of the release.
pub check_archive-IsToolchain :
    (c : Claim) (path host : Text) (opened : Option Opened)
    → check_archive c path host opened ≡ []
    → (o : Opened) × (opened ≡ some o) × IsToolchain c path host o
unfolding check_archive check_inside
check_archive-IsToolchain c path host none h = cc h
check_archive-IsToolchain c path host (some o) h =
    let stem = stem_of path in
    let inside = inside_of stem (kept_names o.names) in
    elim (Bool-cases (is_only stem (kept_names o.names))) [
      | inr other ↦ cc (rw other at h)
      | inl only ↦
          let (tools, rest) =
            append-nil_both (check_tools c host inside (codes "as" ∷ codes "ld" ∷ [])) _
              (rw only at h) in
          let (copying, last) =
            append-nil_both (if any (λ n. starts_with n (codes "COPYING")) inside then [] else _) _
              rest in
          let (has_as, (has_ld, _)) =
            check_tools-nil c host inside (codes "as" ∷ codes "ld" ∷ []) tools in
          let (info, read_info, fields) =
            check_info-nil c host (o.read (stem ++ codes "/BUILD-INFO.txt")) (
              info_found (member (codes "BUILD-INFO.txt") inside) _ _ (lacks_info host) refl
                last) in
          (
            o,
            refl,
            record {
              one_top = only;
              has_as = present-HasTool inside (c.target ++ codes "-as") has_as;
              has_ld = present-HasTool inside (c.target ++ codes "-ld") has_ld;
              has_copying = quiet (lacks_copying host) copying;
              info = info;
              read_info = read_info;
              upstream = fields.0;
              sha256 = fields.1.0;
              commit = fields.1.1.0;
              same_host = fields.1.1.1.0;
            },
          )
    ]

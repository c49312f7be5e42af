-- ===== src/Probes/Guard/Run/Guarded.antt =====
-- What a run of the guard without a failure has seen.
use binutils_mcs.Base.{
  no_more, zero_status, ℕ, ◌+◌, ◌≡◌, refl, sym, ap, ◌∙◌, Bool, true, false, not, ◌||◌, some, List,
  [], ◌∷◌, ◌++◌, ◌≢◌, none, All, arith, ◌==◌, if◌then◌else◌, Bool-cases, Option-cases, inl, inr,
  Result, ok, err, >>=-eq-ok,
}
use binutils_mcs.Base.Bytes.{Bytes}
use binutils_mcs.Base.Text.{Text}
use binutils_mcs.Probes.Guard.Object.{BadObject, Object, read_object, Reloc, relocs, with_r_offset}
use binutils_mcs.Probes.Guard.Object.Moved.{IsMoved, with_r_offset-IsMoved}
use binutils_mcs.Probes.Guard.Run.{
  reading, field_size, Probe, has_diag, relevant, cases_of, same_bool, assemble, link, run_offsets,
  baseline_bad, run_moved, run_found, run_probe, run_probes, status,
}

reading-ok : {A : Type 0} (m : Result BadObject A) {a : A} → reading m ≡ ok a → m ≡ ok a
reading-ok (ok b) h = cc h
reading-ok (err why) h = cc h

same_bool-eq : (a b : Bool) → same_bool a b ≡ true → a ≡ b
same_bool-eq true b h = sym h
same_bool-eq false true h = cc h
same_bool-eq false false h = refl

zero_both : (a b : ℕ) → a + b ≡ 0 → (a ≡ 0) × (b ≡ 0)
zero_both a b h = (omega (arith, h), omega (arith, h))

quiet : (a b : Bool) → ◌≡◌ {A = ℕ} (if not a || b then 1 else 0) 0 → (a ≡ true) × (b ≡ false)
quiet true false h = (refl, refl)
quiet true true h = absurd (omega (arith, h))
quiet false b h = absurd (omega (arith, h))

-- A relocation whose type no probe is about.
pub record IsOther (r : Reloc) : Type 0 where
  pub not_pcrel : r.r_type ≢ 3
  pub not_page : r.r_type ≢ 4
  pub not_word : r.r_type ≢ 9
  pub not_b2b : r.r_type ≢ 10
  pub not_pcode : r.r_type ≢ 11

-- `r` stands in the list, and every other entry is of a type that no probe is about.
pub record IsOnly (r : Reloc) (all : List Reloc) : Type 0 where
  pub before : List Reloc
  pub after : List Reloc
  pub whole : all ≡ before ++ r ∷ after
  pub others_before : All IsOther before
  pub others_after : All IsOther after

field_size-IsOther : (r : Reloc) → field_size r.r_type ≡ none → IsOther r
field_size-IsOther r h = record {
  not_pcrel = λ e. cc (rw e at h);
  not_page = λ e. cc (rw e at h);
  not_word = λ e. cc (rw e at h);
  not_b2b = λ e. cc (rw e at h);
  not_pcode = λ e. cc (rw e at h);
}

relevant-nil : (all : List Reloc) → relevant all ≡ [] → All IsOther all
unfolding relevant
relevant-nil [] h = tt
relevant-nil (r ∷ rs) h = elim (Option-cases (field_size r.r_type)) [
  | inl other ↦ (field_size-IsOther r other, relevant-nil rs (rw (other, relevant) at h))
  | inr (n, guarded) ↦ cc (rw (guarded, relevant) at h)
]

cons_both : {r s : Reloc} {rs ss : List Reloc} → r ∷ rs ≡ s ∷ ss → (r ≡ s) × (rs ≡ ss)
cons_both h = (cc h, cc h)

relevant-IsOnly : (r : Reloc) (all : List Reloc) → relevant all ≡ r ∷ [] → IsOnly r all
unfolding relevant
relevant-IsOnly r [] h = cc h
relevant-IsOnly r (s ∷ rs) h = elim (Option-cases (field_size s.r_type)) [
  | inl other ↦
      let later = relevant-IsOnly r rs (rw (other, relevant) at h) in
      record {
        before = s ∷ later.before;
        after = later.after;
        whole = ap (λ l. s ∷ l) later.whole;
        others_before = (field_size-IsOther s other, later.others_before);
        others_after = later.others_after;
      }
  | inr (n, guarded) ↦
      let (same, rest) = cons_both (rw (guarded, relevant) at h) in
      record {
        before = [];
        after = rs;
        whole = ap (λ (q : Reloc). q ∷ rs) same;
        others_before = tt;
        others_after = relevant-nil rs rest;
      }
]

module _ (as_new : Text → ℕ × (Text × Bytes)) (ld_new : Bytes → List (Text × ℕ) → ℕ × Text) where
  -- The object with the offset moved is linked with a complaint exactly if one is wanted.
  abbrev pub IsJudged : Object → Bytes → ℕ → List (Text × ℕ) → ℕ × Bool → Type 0
  IsJudged e obj base defs (offset, want) =
      (mangled : Bytes) × (with_r_offset e obj base offset ≡ ok mangled)
      × IsMoved e obj base offset mangled
      × (has_diag (link as_new ld_new mangled defs).1 ≡ want)

  -- A probe that passes: as-new makes an object with the one relocation of the probe, which links with exit code 0 and
  -- without a complaint, and each case is refused or not as it has to be.
  pub record IsGuarded (p : Probe) : Type 0 where
    pub size : ℕ
    pub listed : field_size p.rtype ≡ some size
    pub obj : Bytes
    pub assembled : assemble as_new ld_new p.source ≡ ok obj
    pub object : Object
    pub read : read_object obj ≡ ok object
    pub all : List Reloc
    pub walked : relocs object obj ≡ ok all
    pub reloc : Reloc
    pub only : IsOnly reloc all
    pub same_type : reloc.r_type ≡ p.rtype
    pub links : (link as_new ld_new obj p.defs).0 ≡ 0
    pub no_complaint : has_diag (link as_new ld_new obj p.defs).1 ≡ false
    pub cases :
        All (IsJudged object obj reloc.base p.defs) (cases_of p.rtype size reloc.target.sh_size)

  run_offsets-zero :
      (e : Object) (obj : Bytes) (base : ℕ) (defs : List (Text × ℕ)) (cases : List (ℕ × Bool))
      → run_offsets as_new ld_new e obj base defs cases ≡ ok 0
      → All (IsJudged e obj base defs) cases
  unfolding run_offsets
  run_offsets-zero e obj base defs [] h = tt
  run_offsets-zero e obj base defs ((offset, want) ∷ cases) h =
      let (mangled, moved, rest) = >>=-eq-ok (reading (with_r_offset e obj base offset)) _ h in
      let (n, others, end) = >>=-eq-ok (run_offsets as_new ld_new e obj base defs cases) _ rest in
      let (good, none_left) =
        no_more (same_bool (has_diag (link as_new ld_new mangled defs).1) want) n (cc end) in
      let out = reading-ok (with_r_offset e obj base offset) moved in
      (
        (mangled, out, with_r_offset-IsMoved e obj base offset out, same_bool-eq _ want good),
        run_offsets-zero e obj base defs cases (others ∙ ap ok none_left),
      )

  baseline_bad-zero :
      (obj : Bytes) (defs : List (Text × ℕ))
      → baseline_bad as_new ld_new obj defs ≡ 0
      → ((link as_new ld_new obj defs).0 ≡ 0) × (has_diag (link as_new ld_new obj defs).1 ≡ false)
  unfolding baseline_bad
  baseline_bad-zero obj defs h =
      let (rc, log) =
        quiet ((link as_new ld_new obj defs).0 == 0) (has_diag (link as_new ld_new obj defs).1) h in
      (ground (arith, rc), log)

  run_moved-zero :
      (p : Probe) (size : ℕ) (e : Object) (obj : Bytes) (r : Reloc)
      → run_moved as_new ld_new p size e obj r ≡ ok 0
      → ((link as_new ld_new obj p.defs).0 ≡ 0)
        × (has_diag (link as_new ld_new obj p.defs).1 ≡ false)
        × All (IsJudged e obj r.base p.defs) (cases_of p.rtype size r.target.sh_size)
  unfolding run_moved
  run_moved-zero p size e obj r h =
      let cases = cases_of p.rtype size r.target.sh_size in
      let (n, judged, end) =
        >>=-eq-ok (run_offsets as_new ld_new e obj r.base p.defs cases)
          (λ n. ok (baseline_bad as_new ld_new obj p.defs + n)) h in
      let (base, others) = zero_both (baseline_bad as_new ld_new obj p.defs) n (cc end) in
      let (links, no_complaint) = baseline_bad-zero obj p.defs base in
      (links, no_complaint, run_offsets-zero e obj r.base p.defs cases (judged ∙ ap ok others))

  run_found-zero :
      (p : Probe) (size : ℕ) (e : Object) (obj : Bytes) (rs : List Reloc)
      → run_found as_new ld_new p size e obj rs ≡ ok 0
      → (r : Reloc) × (rs ≡ r ∷ [])
        × (r.r_type ≡ p.rtype)
        × (run_moved as_new ld_new p size e obj r ≡ ok 0)
  unfolding run_found
  run_found-zero p size e obj [] h = cc h
  run_found-zero p size e obj (r ∷ s ∷ rs) h = cc h
  run_found-zero p size e obj (r ∷ []) h = elim (Bool-cases (r.r_type == p.rtype)) [
    | inl same ↦ (r, refl, ground (arith, same), rw (same, run_found) at h)
    | inr other ↦ cc (rw (other, run_found) at h)
  ]

  run_probe-IsGuarded : (p : Probe) → run_probe as_new ld_new p ≡ ok 0 → IsGuarded p
  unfolding run_probe
  run_probe-IsGuarded p h = elim (Option-cases (field_size p.rtype)) [
    | inl absent ↦ cc (rw (absent, run_probe) at h)
    | inr (size, listed) ↦
        let (obj, assembled, h₁) =
          >>=-eq-ok (assemble as_new ld_new p.source) _ (rw (listed, run_probe) at h) in
        let (e, read, h₂) = >>=-eq-ok (reading (read_object obj)) _ h₁ in
        let (rs, walked, h₃) = >>=-eq-ok (reading (relocs e obj)) _ h₂ in
        let (r, only, same_type, moved) = run_found-zero p size e obj (relevant rs) h₃ in
        let (links, no_complaint, judged) = run_moved-zero p size e obj r moved in
        record {
          size = size;
          listed = listed;
          obj = obj;
          assembled = assembled;
          object = e;
          read = reading-ok (read_object obj) read;
          all = rs;
          walked = reading-ok (relocs e obj) walked;
          reloc = r;
          only = relevant-IsOnly r rs only;
          same_type = same_type;
          links = links;
          no_complaint = no_complaint;
          cases = judged;
        }
  ]

  run_probes-zero : (ps : List Probe) → run_probes as_new ld_new ps ≡ ok 0 → All IsGuarded ps
  unfolding run_probes
  run_probes-zero [] h = tt
  run_probes-zero (p ∷ ps) h =
      let (n, run, rest) = >>=-eq-ok (run_probe as_new ld_new p) _ h in
      let (k, runs, end) = >>=-eq-ok (run_probes as_new ld_new ps) _ rest in
      let (n0, k0) = zero_both n k (cc end) in
      (run_probe-IsGuarded p (run ∙ ap ok n0), run_probes-zero ps (runs ∙ ap ok k0))

  -- With exit status 0, for each probe of the table: as-new makes an object that is read and has exactly one relocation of
  -- a guarded type, which is that of the probe; the object links with exit code 0 and without a complaint; and for each
  -- case, the object that differs in the offset alone is complained of exactly if the case wants it.
  pub status-IsGuarded :
      (table : List Probe) → status as_new ld_new table ≡ ok 0 → All IsGuarded table
  unfolding status
  status-IsGuarded table h =
      let (bad, run, end) = >>=-eq-ok (run_probes as_new ld_new table) _ h in
      run_probes-zero table (run ∙ ap ok (zero_status bad (cc end)))

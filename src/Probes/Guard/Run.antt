-- ===== src/Probes/Guard/Run.antt =====
-- The probes and `main` of tb/sim/run-guard.py. The programs as-new and ld-new are parameters: each gives its exit
-- code, and what it printed or the object. Messages are left out, as is the number of checks, and the check that the tools exist.
pub mod Exact
pub mod Guarded
use binutils_mcs.Base.{
  ℕ, ◌+◌, ◌-◌, ◌%◌, ◌^◌, ◌≡◌, Bool, true, false, not, ◌&&◌, ◌||◌, Option, none, some, List, [], ◌∷◌,
  ◌++◌, ◌==◌, if◌then◌else◌, Result, ok, err, ◌>>=◌,
}
use binutils_mcs.Base.Bytes.{Bytes, codes, equal}
use binutils_mcs.Base.Text.{Text, strip, contains}
use binutils_mcs.Probes.Guard.Object.{
  BadObject, Shdr, Object, read_object, Reloc, relocs, with_r_offset,
}

-- Why there is no verdict: as-new fails, an object cannot be read, or a probe has a type that R_I51 has not.
pub data Halt : Type 0 where
  as_failed : Text → Halt
  unreadable : BadObject → Halt
  key_error : Halt

abbrev pub reading {ℓ} : {A : Type ℓ} → Result BadObject A → Result Halt A
reading (ok a) = ok a
reading (err e) = err (unreadable e)

-- R_I51: the size of the field
abbrev pub field_size : ℕ → Option ℕ
field_size rtype =
    if rtype == 3
    then some 1
    else if rtype == 4
    then some 2
    else if rtype == 9
    then some 2
    else if rtype == 10
    then some 1
    else if rtype == 11
    then some 2
    else none

pub record Probe : Type 0 where
  pub tag : Text
  pub rtype : ℕ
  pub source : Text
  pub defs : List (Text × ℕ)

abbrev probe : Text → ℕ → Text → List (Text × ℕ) → Probe
probe t r s d = record { tag = t; rtype = r; source = s; defs = d }

-- PROBES
abbrev pub probes : List Probe
probes =
    probe (codes "pcrel") 3 (codes "\tsjmp\tNEAR\n") ((codes "NEAR", 0x0020) ∷ [])
    ∷ probe (codes "page") 4 (codes "\tajmp\tPAGE\n") ((codes "PAGE", 0x0345) ∷ [])
    ∷ probe (codes "word") 9 (codes "\tmov\tdptr,#XSYM\n") ((codes "XSYM", 0x1234) ∷ [])
    ∷ probe (codes "b2b") 10 (codes "\tsetb\tB2B(BDVAR,1)\n") ((codes "BDVAR", 0x2f) ∷ [])
    ∷ probe (codes "pcode") 11 (codes "\t.pcode\tPSYM\n") ((codes "PSYM", 0x0123) ∷ [])
    ∷ []

-- WILD_OFFSET
abbrev pub wild_offset : ℕ
wild_offset = 0xffff

-- `DIAG in log`
abbrev pub has_diag : Text → Bool
has_diag log = contains (codes "out of range") log

-- `[r for r in e.relocs() if r[2] in R_I51]`
unfoldable pub relevant : List Reloc → List Reloc
relevant [] = []
relevant (r ∷ rs) =
    let rest = relevant rs in elim (field_size r.r_type) [ none ↦ rest | some n ↦ r ∷ rest ]

-- `end - size` behind the mask of `with_r_offset`, which also takes what is below zero
abbrev pub masked_sub : ℕ → ℕ → ℕ
masked_sub a b = (a + 2 ^ 32 - b) % 2 ^ 32

-- `cases`: the offsets, and whether each is refused
abbrev pub cases_of : ℕ → ℕ → ℕ → List (ℕ × Bool)
cases_of rtype size end =
    (masked_sub end size, false)
    ∷ ((if size == 1 then [] else (masked_sub (end + 1) size, true) ∷ [])
        ++ ((end, true) ∷ (if rtype == 9 then (wild_offset, true) ∷ [] else [])))

abbrev same_bool : Bool → Bool → Bool
same_bool true b = b
same_bool false b = not b

module _ (as_new : Text → ℕ × (Text × Bytes)) (ld_new : Bytes → List (Text × ℕ) → ℕ × Text) where
  -- `Tools.assemble`
  unfoldable pub assemble : Text → Result Halt Bytes
  assemble source =
      let (rc, (stderr, o)) = as_new (codes "\t.text\n\t.global _START\n_START:\n" ++ source) in
      if not (rc == 0) then err (as_failed (strip stderr)) else ok o

  -- `Tools.link`
  unfoldable pub link : Bytes → List (Text × ℕ) → ℕ × Text
  link obj defs = let (rc, log) = ld_new obj defs in (rc, strip log)

  -- The failures among the cases.
  unfoldable pub run_offsets :
      Object → Bytes → ℕ → List (Text × ℕ) → List (ℕ × Bool) → Result Halt ℕ
  unfolding link with_r_offset
  run_offsets e obj base defs [] = ok 0
  run_offsets e obj base defs ((offset, want) ∷ cases) = do
    mangled ← reading (with_r_offset e obj base offset)
    n ← run_offsets e obj base defs cases
    ok (if same_bool (has_diag (link mangled defs).1) want then n else n + 1)

  -- The link of what as-new made.
  unfoldable pub baseline_bad : Bytes → List (Text × ℕ) → ℕ
  unfolding link
  baseline_bad obj defs =
      let (rc, log) = link obj defs in if not (rc == 0) || has_diag log then 1 else 0

  -- The failures of a probe that emits what it is here for.
  unfoldable pub run_moved : Probe → ℕ → Object → Bytes → Reloc → Result Halt ℕ
  unfolding baseline_bad run_offsets
  run_moved p size e obj r = do
    n ← run_offsets e obj r.base p.defs (cases_of p.rtype size r.target.sh_size)
    ok (baseline_bad obj p.defs + n)

  unfoldable pub run_found : Probe → ℕ → Object → Bytes → List Reloc → Result Halt ℕ
  unfolding run_moved
  run_found p size e obj (r ∷ []) = if r.r_type == p.rtype then run_moved p size e obj r else ok 1
  run_found p size e obj _ = ok 1

  unfoldable pub run_probe : Probe → Result Halt ℕ
  unfolding assemble run_found relevant
  run_probe p = elim (field_size p.rtype) [
    | none ↦ err key_error
    | some size ↦ do
      obj ← assemble p.source
      e ← reading (read_object obj)
      rs ← reading (relocs e obj)
      run_found p size e obj (relevant rs)
  ]

  unfoldable pub run_probes : List Probe → Result Halt ℕ
  unfolding run_probe
  run_probes [] = ok 0
  run_probes (p ∷ ps) = do n ← run_probe p; k ← run_probes ps; ok (n + k)

  -- The exit status, over a table of probes.
  unfoldable pub status : List Probe → Result Halt ℕ
  unfolding run_probes
  status table = do bad ← run_probes table; ok (if bad == 0 then 0 else 1)

  abbrev pub main : Result Halt ℕ
  main = status probes

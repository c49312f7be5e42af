-- ===== src/Probes/Run.antt =====
-- `Tools` and `main` of tb/sim/run-bits.py. The programs are parameters: each gives its exit code, what it printed, and
-- its output, of a type that is not looked into. What is printed is left out, as is the check that the tools exist.
pub mod Passed
use binutils_mcs.Base.{
  ℕ, ◌+◌, ◌≡◌, Bool, true, false, not, ◌&&◌, ◌||◌, Option, none, some, List, [], ◌∷◌, ◌++◌, ltb,
  ◌==◌, if◌then◌else◌, length, get_elem?, Result, ok, err, ◌>>=◌,
}
use binutils_mcs.Base.Bytes.{Bytes, codes, equal}
use binutils_mcs.Base.Text.{Text, strip, from_hex, contains}
use binutils_mcs.Base.Decimal.{decimal}
use binutils_mcs.Probes.Bits.{AsmCase, LinkCase, asm_cases, dir_cases, link_cases}

-- Why there is no verdict: objcopy fails, a `want` is no hexadecimal, a case has no `msg` to look for.
pub data Stop : Type 0 where
  objcopy_failed : Text → Stop
  value_error type_error : Stop

-- The text that is assembled.
abbrev pub program : Text → Text
program source = codes "\t.text\n\t.global _START\n_START:\n\t" ++ (source ++ codes "\n")

-- `c['msg'] and c['msg'] not in err` does not hold
abbrev pub says : Option Text → Text → Bool
says none log = true
says (some m) log = equal m [] || contains m log

abbrev pub complains : Option Text → Text → Result Stop Bool
complains none log = err type_error
complains (some m) log = ok (contains m log)

abbrev pub link_source : ℕ → Text
link_source off = codes "setb B2B(BDVAR," ++ (decimal off ++ codes ")")

module _ (Obj : Type 0) (as_new : Text → ℕ × (Text × Obj)) (objcopy : Obj → ℕ × (Text × Bytes))
    (dump_section : Text → Obj → ℕ × Option Bytes)
    (ld : Obj → List (Text × ℕ) → ℕ × (Text × Obj)) where
  -- `Tools.assemble`: the object, or the complaint
  unfoldable pub assemble : Text → Result Text Obj
  assemble source =
      let (rc, (stderr, o)) = as_new (program source) in
      if not (rc == 0) then err (strip stderr) else ok o

  -- `Tools.text`
  unfoldable pub text : Obj → Result Stop Bytes
  text elf =
      let (rc, (stderr, b)) = objcopy elf in
      if not (rc == 0) then err (objcopy_failed (strip stderr)) else ok b

  -- `Tools.section`
  unfoldable pub section_of : Text → Obj → Option Bytes
  section_of name elf = let (rc, b) = dump_section name elf in if not (rc == 0) then none else b

  -- `Tools.link`: the program, if the link returns 0, and what was printed
  unfoldable pub link : Obj → List (Text × ℕ) → Option Obj × Text
  link obj defsyms =
      let (rc, (log, e)) = ld obj defsyms in ((if rc == 0 then some e else none), strip log)

  unfoldable pub bytes_of : Text → Obj → Result Stop (Option Bytes)
  unfolding text section_of
  bytes_of sec obj = elim (equal sec (codes ".text")) [
    | true ↦ do b ← text obj; ok (some b)
    | false ↦ ok (section_of sec obj)
  ]

  -- The bytes of an object against the wanted ones.
  unfoldable pub compare_bytes : Text → Text → Obj → Result Stop Bool
  unfolding bytes_of
  compare_bytes want sec obj = do
    got ← bytes_of sec obj
    elim got [
      | none ↦ ok false
      | some b ↦ elim (from_hex want) [ none ↦ err value_error | some w ↦ ok (equal b w) ]
    ]

  -- Whether a case that is assembled alone passes.
  unfoldable pub asm_passes : AsmCase → Result Stop Bool
  unfolding assemble compare_bytes
  asm_passes c = elim c.want [
    | none ↦ elim (assemble c.src) [ ok o ↦ ok false | err why ↦ ok (says c.msg why) ]
    | some want ↦ elim (assemble c.src) [
      | err why ↦ ok false
      | ok o ↦ compare_bytes want c.section o
    ]
  ]

  -- The byte behind the opcode, and no complaint.
  unfoldable pub linked_passes : ℕ → Option Obj × Text → Result Stop Bool
  unfolding text
  linked_passes want (none, log) = ok false
  linked_passes want (some elf, log) = do
    got ← text elf
    elim (get_elem? got 1) [ none ↦ ok false | some b ↦ ok (b == want && equal log []) ]

  -- Whether a case that is linked passes.
  unfoldable pub link_passes : LinkCase → Result Stop Bool
  unfolding assemble link linked_passes
  link_passes c = elim (assemble (link_source c.off)) [
    | err why ↦ ok false
    | ok o ↦
        let out = link o ((codes "BDVAR", c.addr) ∷ []) in
        elim c.want [ none ↦ complains c.msg out.1 | some want ↦ linked_passes want out ]
  ]

  -- The number of the cases that fail.
  unfoldable pub count_failed : {C : Type 0} → (C → Result Stop Bool) → List C → Result Stop ℕ
  count_failed passes [] = ok 0
  count_failed passes (c ∷ cs) = do
    good ← passes c
    n ← count_failed passes cs
    ok (if good then n else n + 1)

  -- The exit status, over tables of cases.
  unfoldable pub run_cases : List AsmCase → List LinkCase → Result Stop ℕ
  unfolding count_failed asm_passes link_passes
  run_cases asm_table link_table = do
    a ← count_failed asm_passes asm_table
    l ← count_failed link_passes link_table
    ok (if a + l == 0 then 0 else 1)

  abbrev pub main : Result Stop ℕ
  main = run_cases (asm_cases ++ dir_cases) link_cases

-- ===== src/Probes/Branch.antt =====
-- tb/isa/branch.py and tb/sim/run-branch.py. The programs as-new and objcopy are parameters: each gives its exit code,
-- what it printed, and its output. What is printed is left out, as is the check that the tools exist.
pub mod Encoded
use binutils_mcs.Base.{
  ℕ, zero, suc, ◌+◌, ◌/◌, ◌%◌, ◌≡◌, Bool, true, false, not, Option, none, some, List, [], ◌∷◌, ◌++◌,
  ltb, ◌==◌, if◌then◌else◌, replicate, Result, ok, err, ◌>>=◌,
}
use binutils_mcs.Base.Bytes.{Bytes, codes, equal}
use binutils_mcs.Base.Text.{Text, strip, splitlines, from_hex}
use binutils_mcs.Probes.Run.{Stop, objcopy_failed, value_error}

pub record Case : Type 0 where
  pub name : Text
  pub src : Text
  pub want : Option Text
  pub skip : ℕ

-- `case`
abbrev pub case : Text → Text → Option Text → ℕ → Case
case name src want skip = record { name = name; src = src; want = want; skip = skip }

-- CASES
abbrev pub cases : List Case
cases =
    case (codes "sjmp-fwd") (codes "sjmp 0x0006") (some (codes "80 04")) 0
    ∷ case (codes "sjmp-self-next") (codes "sjmp 0x0002") (some (codes "80 00")) 0
    ∷ case (codes "sjmp-fwd-max") (codes "sjmp 0x0081") (some (codes "80 7f")) 0
    ∷ case (codes "sjmp-back") (codes "sjmp 0x0000") (some (codes "80 fa")) 4
    ∷ case (codes "sjmp-back-min") (codes "sjmp 0x0082") (some (codes "80 80")) 0x100
    ∷ case (codes "jc-fwd") (codes "jc 0x0006") (some (codes "40 04")) 0
    ∷ case (codes "jz-fwd") (codes "jz 0x0006") (some (codes "60 04")) 0
    ∷ case (codes "djnz-rn-fwd") (codes "djnz r2,0x0006") (some (codes "da 04")) 0
    ∷ case (codes "djnz-dir-fwd") (codes "djnz 0x30,0x0006") (some (codes "d5 30 03")) 0
    ∷ case (codes "cjne-a-imm-fwd") (codes "cjne a,#0x55,0x0006") (some (codes "b4 55 03")) 0
    ∷ case (codes "cjne-rn-imm-fwd") (codes "cjne r7,#0x55,0x0006") (some (codes "bf 55 03")) 0
    ∷ case (codes "sjmp-plus128") (codes "sjmp 0x0082") none 0
    ∷ case (codes "sjmp-minus129") (codes "sjmp 0x0081") none 0x100
    ∷ case (codes "ajmp-page0") (codes "ajmp 0x0006") (some (codes "01 06")) 0
    ∷ case (codes "acall-page0") (codes "acall 0x0006") (some (codes "11 06")) 0
    ∷ case (codes "ajmp-a10a8") (codes "ajmp 0x0345") (some (codes "61 45")) 0
    ∷ case (codes "acall-a10a8") (codes "acall 0x0345") (some (codes "71 45")) 0
    ∷ case (codes "ajmp-cross-ok") (codes "ajmp 0x0802") (some (codes "01 02")) 0x7fe
    ∷ case (codes "acall-cross-ok") (codes "acall 0x0802") (some (codes "11 02")) 0x7fe
    ∷ case (codes "ajmp-back-cross") (codes "ajmp 0x07fd") none 0x7fe
    ∷ case (codes "ajmp-next-page") (codes "ajmp 0x0800") none 0
    ∷ case (codes "acall-next-page") (codes "acall 0x0800") none 0
    ∷ case (codes "ljmp-abs16") (codes "ljmp 0x1234") (some (codes "02 12 34")) 0
    ∷ case (codes "lcall-abs16") (codes "lcall 0x0006") (some (codes "12 00 06")) 0
    ∷ []

abbrev hex_char : ℕ → ℕ
hex_char n = if ltb n 10 then n + b'0' else n + 87

-- `'%x' % n`; each division leaves less, so `n + 1` rounds are enough.
unfoldable pub hex_from : ℕ → ℕ → Text → Text
hex_from zero n acc = acc
hex_from (suc fuel) n acc = elim (ltb n 16) [
  | true ↦ hex_char n ∷ acc
  | false ↦ hex_from fuel (n / 16) (hex_char (n % 16) ∷ acc)
]

-- `source`, with the padding in front
unfoldable pub source_of : Case → Text
unfolding hex_from
source_of c =
    if c.skip == 0
    then c.src
    else codes ".skip 0x" ++ (hex_from (suc c.skip) c.skip [] ++ (10 ∷ c.src))

-- `(lines or ['as failed'])[-1]`
unfoldable pub last_line : List Text → Text
last_line [] = codes "as failed"
last_line (l ∷ []) = l
last_line (l ∷ m ∷ ls) = last_line (m ∷ ls)

module _ (Obj : Type 0) (as_new : Text → ℕ × (Text × Obj))
    (objcopy : Obj → ℕ × (Text × Bytes)) where
  -- `assemble`: the bytes of .text, or the complaint
  unfoldable pub assemble : Text → Result Stop (Result Text Bytes)
  unfolding last_line
  assemble source =
      let (rc, (stderr, o)) = as_new (source ++ codes "\n") in
      if not (rc == 0)
      then ok (err (last_line (splitlines (strip stderr))))
      else let (rc', (stderr', b)) = objcopy o in
        if not (rc' == 0) then err (objcopy_failed (strip stderr')) else ok (ok b)

  -- The bytes that came against those that are wanted behind the padding.
  unfoldable pub compare : ℕ → Text → Result Text Bytes → Result Stop Bool
  compare pad want got = elim (from_hex want) [
    | none ↦ err value_error
    | some bytes ↦ elim got [ err why ↦ ok false | ok b ↦ ok (equal b (replicate pad 0 ++ bytes)) ]
  ]

  abbrev is_refused : Result Text Bytes → Bool
  is_refused (ok b) = false
  is_refused (err why) = true

  -- Whether a case passes.
  unfoldable pub passes : Case → Result Stop Bool
  unfolding assemble compare source_of
  passes c = do
    got ← assemble (source_of c)
    elim c.want [ none ↦ ok (is_refused got) | some want ↦ compare c.skip want got ]

  -- `failed`, counted
  unfoldable pub count_failed : List Case → Result Stop ℕ
  unfolding passes
  count_failed [] = ok 0
  count_failed (c ∷ cs) = do good ← passes c; n ← count_failed cs; ok (if good then n else n + 1)

  -- The exit status, over a table of cases.
  unfoldable pub exit_code : List Case → Result Stop ℕ
  unfolding count_failed
  exit_code table = do bad ← count_failed table; ok (if bad == 0 then 0 else 1)

  abbrev pub main : Result Stop ℕ
  main = exit_code cases

-- ===== src/Roms/Gate.antt =====
-- `gate` and `main` of tb/romdiff.py. The files of a project are two functions from its name, and the
-- file of expectations is its lines. What is printed, and its order, is left out.
pub mod Agrees
use binutils_mcs.Base.{
  ℕ, ◌+◌, ◌≡◌, Bool, true, false, not, ◌&&◌, Option, none, some, List, [], ◌∷◌, ◌++◌, ◌==◌,
  if◌then◌else◌, Result, ok, err, ◌>>=◌,
}
use binutils_mcs.Base.Int.{eq_ℤ}
use binutils_mcs.Base.Bytes.{Bytes, equal}
use binutils_mcs.Base.Text.{Text, split_once, words}
use binutils_mcs.Base.Dict.{Dict, get, put, keys, member}
use binutils_mcs.Base.Decimal.{read_int}
use binutils_mcs.Roms.Diff.{Outcome, compare_roms}

-- Why there is no verdict: a line with too few columns, a number that is none, no projects.
pub data Refusal : Type 0 where
  short_line value_error no_projects : Refusal

-- `line.split('#', 1)[0].split()`
abbrev pub columns : Text → List Text
columns line = elim (split_once b'#' line) [
  | none ↦ words line
  | some (before, after) ↦ words before
]

-- The expectation of a line, with what it is about; `none` where the line is blank.
unfoldable pub read_columns : List Text → Result Refusal (Option (Text × Outcome))
unfolding read_int
read_columns [] = ok none
read_columns (p ∷ kind ∷ n ∷ size ∷ more) = elim (read_int n) [
  | none ↦ err value_error
  | some differing ↦ elim (read_int size) [
    | none ↦ err value_error
    | some bytes ↦ ok (some (p, record { kind = kind; differing = differing; size = bytes }))
  ]
]
read_columns _ = err short_line

abbrev pub record_line : Option (Text × Outcome) → Dict Outcome → Dict Outcome
record_line none d = d
record_line (some (p, o)) d = put p o d

-- `expect`, line by line
unfoldable pub read_expect : List Text → Dict Outcome → Result Refusal (Dict Outcome)
unfolding read_columns
read_expect [] d = ok d
read_expect (line ∷ lines) d = do
  o ← read_columns (columns line)
  read_expect lines (record_line o d)

abbrev pub outcome_eq : Outcome → Outcome → Bool
outcome_eq a b = equal a.kind b.kind && eq_ℤ a.differing b.differing && eq_ℤ a.size b.size

-- The tests on `got` and `want`.
abbrev pub agree : Option Outcome → Option Outcome → Bool
agree got none = false
agree none (some want) = false
agree (some got) (some want) = outcome_eq got want

-- The projects of either that do not agree.
unfoldable pub count_bad : Dict Outcome → Dict Outcome → List Text → ℕ
count_bad got want [] = 0
count_bad got want (p ∷ ps) =
    (if agree (get p got) (get p want) then 0 else 1) + count_bad got want ps

abbrev pub without : List Text → List Text → List Text
without old [] = []
without old (p ∷ ps) = if member p old then without old ps else p ∷ without old ps

-- `set(outcome) | set(expect)`
abbrev pub either_key : Dict Outcome → Dict Outcome → List Text
either_key got want = keys got ++ without (keys got) (keys want)

-- The exit status, where a line with too few columns is 1.
unfoldable pub gate : Dict Outcome → List Text → Result Refusal ℕ
unfolding read_expect count_bad
gate got lines = elim (read_expect lines []) [
  | err short_line ↦ ok 1
  | err e ↦ err e
  | ok want ↦ ok (if count_bad got want (either_key got want) == 0 then 0 else 1)
]

module _ (reference produced : Text → Option Bytes) where
  -- `outcome`, project by project
  unfoldable pub outcomes : List Text → Dict Outcome → Dict Outcome
  unfolding compare_roms
  outcomes [] d = d
  outcomes (p ∷ ps) d = outcomes ps (put p (compare_roms (reference p) (produced p)) d)

  -- `main` behind `args.projects.split()`
  unfoldable pub compare_all : List Text → Option (List Text) → Result Refusal ℕ
  unfolding gate outcomes
  compare_all [] expect = err no_projects
  compare_all (p ∷ ps) none = ok 0
  compare_all (p ∷ ps) (some lines) = gate (outcomes (p ∷ ps) []) lines

  abbrev pub main : Text → Option (List Text) → Result Refusal ℕ
  main projects expect = compare_all (words projects) expect

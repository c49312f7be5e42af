-- ===== src/Mutation/Run.antt =====
-- tb/mutation/run.py: apply a mutant to the source tree, rebuild, run the gate, restore.
--
-- A file is its text, read as latin-1, so one code point is one byte. The build and the stages are
-- programs of their own: `make_rebuild` and `make_stage` are parameters, which see the tree and
-- change all but the tree (`World`), and give an exit code and a log. Times are left out.
pub mod Gate
pub mod Restore
use binutils_mcs.Base.{
  ℕ, ◌+◌, ◌-◌, Bool, true, false, not, ◌&&◌, ◌||◌, Option, none, some, List, [], ◌∷◌, ◌++◌, map,
  ◌==◌, if◌then◌else◌, any, length,
}
use binutils_mcs.Base.Bytes.{codes, equal, starts_with, slice, splice}
use binutils_mcs.Base.Text.{Text, join_lines, universal, splitlines, contains}
use binutils_mcs.Base.Dict.{put, member}

pub record Mutant : Type 0 where
  pub id : Text
  pub file : Text
  pub op : Text
  pub line : ℕ  -- counted from 1
  pub old : List Text
  pub new : List Text

abbrev pub lines_equal : List Text → List Text → Bool
lines_equal [] [] = true
lines_equal (a ∷ ls) (b ∷ ks) = equal a b && lines_equal ls ks
lines_equal _ _ = false

-- The text of every file, by its path.
abbrev pub Files : Type 0
Files = Text → Option Text

unfoldable pub write : Files → Text → Text → Files
write t f text g = if equal g f then some text else t g

-- The tree, the directory `pristine`, and the keys of `self.saved`.
pub record Harness : Type 0 where
  pub tree : Files
  pub pristine : Files
  pub saved : List Text

-- `rel.replace('/', '_')`
unfoldable pub flat : Text → Text
flat rel = map (λ c. if c == b'/' then b'_' else c) rel

-- `save`; `none` where a file cannot be read
unfoldable pub save : List Text → Harness → Option Harness
unfolding flat write
save [] h = some h
save (rel ∷ rels) h = elim (h.tree rel) [
  | none ↦ none
  | some text ↦
      save rels (record {
        tree = h.tree;
        pristine = write h.pristine (flat rel) text;
        saved = rel ∷ h.saved;
      })
]

-- One turn of the loop of `restore`; `none` for a file that was not saved.
unfoldable pub restore_one : Text → Harness → Option Harness
unfolding flat write
restore_one rel h = if not (member rel h.saved) then none else elim (h.pristine (flat rel)) [
  | none ↦ none
  | some text ↦
      some (record { tree = write h.tree rel text; pristine = h.pristine; saved = h.saved })
]

-- `apply`, on the text of the file; `none` is the return of `False`
unfoldable pub apply_text : Mutant → Text → Option Text
unfolding join_lines
apply_text m text =
    let lines = splitlines (universal text) in
    let first = m.line - 1 in
    if not (lines_equal (slice lines first (first + length m.old)) m.old)
    then none
    else some (join_lines (splice lines first (first + length m.old) m.new))

-- The file that `apply` opens has to be there; then the new harness, or `none` for a stale mutant.
unfoldable pub apply : Mutant → Harness → Option (Option Harness)
unfolding apply_text write
apply m h = elim (h.tree m.file) [
  | none ↦ none
  | some text ↦ elim (apply_text m text) [
    | none ↦ some none
    | some text' ↦
        some (
          some
            (record { tree = write h.tree m.file text'; pristine = h.pristine; saved = h.saved }))
  ]
]

-- `REBUILD_MARK`
abbrev pub rebuild_mark : List (Text × Text)
rebuild_mark =
    (codes "gas/config/tc-i51.c", codes "tc-i51")
    ∷ (codes "bfd/elf32-i51.c", codes "elf32-i51")
    ∷ (codes "opcodes/i51-dis.c", codes "i51-dis")
    ∷ (codes "include/opcode/i51.h", codes "tc-i51")
    ∷ (codes "ld/scripttempl/elf32i51.sc", codes "eelf32i51")
    ∷ []

abbrev pub mark_of : List (Text × Text) → Text → Option Text
mark_of [] f = none
mark_of ((g, mark) ∷ marks) f = if equal g f then some mark else mark_of marks f

abbrev pub unbuilt : Option Text → Text → Bool
unbuilt none log = false
unbuilt (some mark) log = not (contains mark log)

pub data Status : Type 0 where
  stale nobuild norebuild survived : Status
  killed : Text → Status

pub record Report : Type 0 where
  pub id : Text
  pub status : Status
  pub stages : List (Text × ℕ)

abbrev pub report : Mutant → Status → List (Text × ℕ) → Report
report m s rcs = record { id = m.id; status = s; stages = rcs }

module _ (World : Type 0) (make_rebuild : Files → World → World × (ℕ × Text))
    (make_stage : Text → Files → World → World × (ℕ × Text)) where
  -- What `gate` returns, and the world behind it.
  pub record Gated : Type 0 where
    pub first : Option Text
    pub rcs : List (Text × ℕ)
    pub flog : Text
    pub world : World

  abbrev gated : Option Text → List (Text × ℕ) → Text → World → Gated
  gated f rcs log w = record { first = f; rcs = rcs; flog = log; world = w }

  -- A red while `first` is None.
  abbrev pub is_first_red : ℕ → Option Text → Bool
  is_first_red rc none = not (rc == 0)
  is_first_red rc (some s) = false

  -- The loop of `gate` over the stages that are left.
  unfoldable pub gate_from :
      Bool → Files → List Text → Option Text → List (Text × ℕ) → Text → World → Gated
  unfolding put
  gate_from every t [] first rcs flog w = gated first rcs flog w
  gate_from every t (st ∷ sts) first rcs flog w =
      let (w', (rc, log)) = make_stage st t w in
      elim (is_first_red rc first) [
        | false ↦ gate_from every t sts first (put st rc rcs) flog w'
        | true ↦ elim every [
          | true ↦ gate_from true t sts (some st) (put st rc rcs) log w'
          | false ↦ gated (some st) (put st rc rcs) log w'
        ]
      ]

  abbrev pub gate : Bool → List Text → Files → World → Gated
  gate every stages t w = gate_from every t stages none [] [] w

  abbrev pub status_of : Option Text → Status
  status_of none = survived
  status_of (some st) = killed st

  -- The rebuild and the gate of a mutant that was applied.
  unfoldable pub measure : Bool → List Text → Mutant → Files → World → Report × World
  unfolding gate_from
  measure every stages m t w =
      let (w', (rc, blog)) = make_rebuild t w in
      if not (rc == 0)
      then (report m nobuild [], w')
      else if unbuilt (mark_of rebuild_mark m.file) blog
      then (report m norebuild [], w')
      else let g = gate every stages t w' in (report m (status_of g.first) g.rcs, g.world)

  -- One turn of the loop of `main` over the mutants.
  unfoldable pub run_mutant :
      Bool → List Text → Mutant → Harness → World → Option (Report × (Harness × World))
  unfolding apply measure restore_one
  run_mutant every stages m h w = elim (apply m h) [
    | none ↦ none
    | some none ↦ some (report m stale [], (h, w))
    | some (some h') ↦
        let (r, w') = measure every stages m h'.tree w in
        elim (restore_one m.file h') [ none ↦ none | some h'' ↦ some (r, (h'', w')) ]
  ]

  unfoldable pub run_mutants :
      Bool → List Text → List Mutant → Harness → World → Option (List Report × (Harness × World))
  unfolding run_mutant
  run_mutants every stages [] h w = some ([], (h, w))
  run_mutants every stages (m ∷ ms) h w = elim (run_mutant every stages m h w) [
    | none ↦ none
    | some (r, (h', w')) ↦ elim (run_mutants every stages ms h' w') [
      | none ↦ none
      | some (rs, end) ↦ some (r ∷ rs, end)
    ]
  ]

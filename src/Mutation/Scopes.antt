-- ===== src/Mutation/Scopes.antt =====
-- `functions` and `scoped_lines` of tb/mutation/gen.py. An index is a number, and a loop over the lines has their number
-- for fuel.
pub mod Spans
use binutils_mcs.Base.{
  ℕ, zero, suc, ◌+◌, ◌-◌, Bool, true, false, not, ◌&&◌, ◌||◌, Option, none, some, List, [], ◌∷◌,
  ◌++◌, ltb, leb, ◌==◌, if◌then◌else◌, length, get_elem?, any,
}
use binutils_mcs.Base.Bytes.{codes, starts_with}
use binutils_mcs.Base.Text.{Text, between, lstrip}
use binutils_mcs.Base.Dict.{Dict, get, member}
use binutils_mcs.Base.Scan.{span}

abbrev pub is_letter : ℕ → Bool
is_letter c = between b'A' b'Z' c || between b'a' b'z' c || c == b'_'

abbrev pub is_word : ℕ → Bool
is_word c = is_letter c || between b'0' b'9' c

-- `^([A-Za-z_][A-Za-z0-9_]*)\s*\(`
unfoldable pub function_name : Text → Option Text
unfolding span lstrip
function_name [] = none
function_name (c ∷ cs) =
    let (a, rest) = span is_word cs in
    if is_letter c && starts_with (lstrip rest) (codes "(") then some (c ∷ a) else none

-- `lines[j].startswith('{')`, where there is such a line
abbrev pub opens_at : List Text → ℕ → Bool
opens_at lines j = elim (get_elem? lines j) [ none ↦ false | some s ↦ starts_with s (codes "{") ]

-- The loop over `j`, of `left` rounds at most: where a brace opens behind the name.
unfoldable pub find_open : List Text → ℕ → ℕ → Option ℕ
find_open lines zero j = none
find_open lines (suc left) j =
    let rest = find_open lines left (suc j) in if opens_at lines j then some j else rest

-- `s.count(…)`
unfoldable pub count_char : ℕ → Text → ℕ
count_char c [] = 0
count_char c (d ∷ s) = let n = count_char c s in if d == c then suc n else n

-- The loop over `k`, of `left` lines: the line where as many braces have closed as opened, or the one behind the last.
unfoldable pub find_close : List Text → ℕ → ℕ → ℕ → ℕ → ℕ
unfolding count_char
find_close lines zero k opened closed = k
find_close lines (suc left) k opened closed = elim (get_elem? lines k) [
  | none ↦ k
  | some s ↦
      let o = opened + count_char b'{' s in
      let c = closed + count_char b'}' s in
      let rest = find_close lines left (suc k) o c in if o == c then k else rest
]

pub record Span : Type 0 where
  pub name : Text
  pub first : ℕ
  pub last : ℕ

abbrev pub name_at : List Text → ℕ → Option Text
name_at lines i = elim (get_elem? lines i) [ none ↦ none | some s ↦ function_name s ]

-- A function that begins at the `i`th line; its brace is at most 13 lines behind.
unfoldable pub span_at : List Text → ℕ → Option Span
unfolding function_name find_open find_close
span_at lines i = elim (name_at lines i) [
  | none ↦ none
  | some name ↦ elim (find_open lines 14 i) [
    | none ↦ none
    | some j ↦
        some (record { name = name; first = i; last = find_close lines (length lines) j 0 0 })
  ]
]

-- The loop over `i`, of `left` rounds at most.
unfoldable pub functions_from : List Text → ℕ → ℕ → List Span
unfolding span_at
functions_from lines zero i = []
functions_from lines (suc left) i =
    if ltb i (length lines)
    then (elim (span_at lines i) [
      | none ↦ functions_from lines left (suc i)
      | some f ↦ f ∷ functions_from lines left (suc f.last)
    ])
    else []

abbrev pub functions : List Text → List Span
functions lines = functions_from lines (length lines) 0

-- `range(first, …)`, of so many numbers
unfoldable pub range : ℕ → ℕ → List ℕ
range first zero = []
range first (suc n) = first ∷ range (suc first) n

-- SCOPES
abbrev pub scopes : Dict (List Text)
scopes =
    (
      codes "gas",
      codes "md_apply_fix"
          ∷ codes "fixup8"
          ∷ codes "fixup11"
          ∷ codes "fixup16"
          ∷ codes "check_range"
          ∷ codes "i51_fold_bit_suffix"
          ∷ codes "i51_build_ins"
          ∷ codes "md_pcrel_from_section"
          ∷ codes "tc_gen_reloc"
          ∷ codes "i51_bit"
          ∷ codes "md_undefined_symbol"
          ∷ codes "i51_arg_kind"
          ∷ codes "i51_check_direct"
          ∷ [],
    )
    ∷ (
      codes "bfd",
      codes "i51_final_link_relocate"
          ∷ codes "elf32_i51_relocate_section"
          ∷ codes "i51_info_to_howto_rela"
          ∷ codes "elf32_i51_section_from_bfd_section"
          ∷ codes "elf32_i51_add_symbol_hook"
          ∷ codes "bfd_elf32_bfd_reloc_type_lookup"
          ∷ [],
    )
    ∷ (codes "dis", codes "print_insn_i51" ∷ codes "i51dis_op16" ∷ codes "i51dis_opcode" ∷ [])
    ∷ []

-- The lines of the functions that are named; the spans rise, so the list is sorted and has no line twice.
unfoldable pub scoped_spans : List Text → List Span → List ℕ
unfolding range
scoped_spans names [] = []
scoped_spans names (f ∷ fs) =
    let rest = scoped_spans names fs in
    if member f.name names then range f.first (suc f.last - f.first) ++ rest else rest

unfoldable pub scoped_lines : Text → List Text → List ℕ
unfolding scoped_spans functions_from get
scoped_lines key lines = elim (get key scopes) [
  | none ↦ range 0 (length lines)
  | some names ↦ scoped_spans names (functions lines)
]

-- ===== src/Corpus/Disasm.antt =====
-- `Tools` of tb/isa_check.py. The programs it runs are parameters: each gives its exit code, what it
-- printed as errors, and its output.
use binutils_mcs.Base.{
  ℕ, ◌+◌, ◌*◌, ◌/◌, ◌%◌, Bool, true, false, not, ◌&&◌, ◌||◌, Option, none, some, List, [], ◌∷◌,
  ◌++◌, map, ltb, ◌==◌, if◌then◌else◌, Result, ok, err, length,
}
use binutils_mcs.Base.Bytes.{Bytes, codes, equal}
use binutils_mcs.Base.Text.{
  Text, between, is_space, lstrip, strip, hex_digit, split_once, universal, splitlines, contains,
}
use binutils_mcs.Base.Scan.{span}
use binutils_mcs.Hex.Payload.{CorpusError}

-- An instruction as objdump printed it.
pub record Insn : Type 0 where
  pub address : ℕ
  pub raw : Text
  pub text : Text
  pub comment : Text

abbrev is_lower_hex : ℕ → Bool
is_lower_hex c = between b'0' b'9' c || between b'a' b'f' c

-- The rest of `[0-9a-f]{2}(?: +[0-9a-f]{2})* *` behind a pair; the flag is set behind a blank.
unfoldable pub more_pairs : Bool → Text → Bool
more_pairs spaced [] = true
more_pairs spaced (c ∷ []) = c == b' '
more_pairs spaced (c ∷ d ∷ cs) = elim (c == b' ') [
  | true ↦ more_pairs true (d ∷ cs)
  | false ↦ elim (spaced && is_lower_hex c && is_lower_hex d) [
    | true ↦ more_pairs false cs
    | false ↦ false
  ]
]

abbrev pub is_pairs : Text → Bool
is_pairs (c ∷ d ∷ cs) = is_lower_hex c && is_lower_hex d && more_pairs false cs
is_pairs _ = false

unfoldable pub hex_value : ℕ → Text → ℕ
hex_value acc [] = acc
hex_value acc (c ∷ cs) = hex_value (acc * 16 + (elim (hex_digit c) [ none ↦ 0 | some d ↦ d ])) cs

abbrev without_blanks : Text → Text
without_blanks [] = []
without_blanks (c ∷ cs) = if c == b' ' then without_blanks cs else c ∷ without_blanks cs

abbrev is_tab : ℕ → Bool
is_tab c = c == 9

-- The three groups of INSN_LINE: behind the address `:` and a tab, then the bytes, a tab, the text.
unfoldable pub match_line : Text → Option (Text × (Text × Text))
unfolding span more_pairs
match_line line =
    let (addr, r) = span is_lower_hex (lstrip line) in
    elim r [
      | colon ∷ tab ∷ r' ↦
          let (bytes, last) = span (λ c. not (is_tab c)) r' in
          elim last [
            | tab' ∷ c ∷ text ↦
                if ltb 0 (length addr) && colon == b':' && is_tab tab && is_pairs bytes
                then some (addr, (bytes, c ∷ text))
                else none
            | _ ↦ none
          ]
      | _ ↦ none
    ]

-- `text.split(';', 1)`, with an empty comment where no `;` stands
abbrev at_semicolon : Text → Text × Text
at_semicolon group = elim (split_once b';' group) [ none ↦ (group, []) | some parts ↦ parts ]

-- What `disassemble` makes of a line that matches.
unfoldable pub insn_of : Text × (Text × Text) → Insn
unfolding hex_value
insn_of (addr, (bytes, group)) =
    let (text, comment) = at_semicolon group in
    record {
      address = hex_value 0 addr;
      raw = without_blanks bytes;
      text = strip (map (λ c. if is_tab c then b' ' else c) text);
      comment = strip comment;
    }

unfoldable pub insns_of : List Text → List Insn
unfolding match_line insn_of
insns_of [] = []
insns_of (line ∷ lines) =
    let rest = insns_of lines in
    elim (match_line line) [ none ↦ rest | some groups ↦ insn_of groups ∷ rest ]

abbrev last_or : Text → List Text → Text
last_or d [] = d
last_or d (l ∷ ls) = last_or l ls

-- `(s.strip().splitlines() or [default])[-1]`
abbrev last_line : Text → Text → Text
last_line default s = last_or default (splitlines (strip (universal s)))

-- `s or default`
abbrev or_else : Text → Text → Text
or_else default [] = default
or_else default (c ∷ cs) = c ∷ cs

-- Why an entry is bad: what a tool said, other bytes, not one instruction, another length, no
-- instruction, a displacement that is not its target, a branch without target.
pub data Why : Type 0 where
  tool : Text → Why
  other_bytes : Bytes → Why
  instructions : ℕ → Why
  covers : Text → Why
  not_decoded : Text → Why
  disagrees no_target : Why

-- What stops the script: a damaged table, unknown stages, nothing to check, a table and no stage, or
-- an index that is out of range.
pub data Stop : Type 0 where
  corpus_damaged : ℕ × CorpusError → Stop
  unknown_stages : List Text → Stop
  nothing_to_check empty_stages index_error : Stop

-- `data.hex()`
abbrev lower_digit : ℕ → ℕ
lower_digit n = if ltb n 10 then n + b'0' else n + 87

unfoldable pub hex_of : Bytes → Text
hex_of [] = []
hex_of (b ∷ bs) = lower_digit (b / 16) ∷ lower_digit (b % 16) ∷ hex_of bs

-- `s.split()[0]`
unfoldable pub first_word : Text → Option Text
unfolding span
first_word s = elim (lstrip s) [
  | [] ↦ none
  | c ∷ cs ↦ some (c ∷ (span (λ d. not (is_space d)) cs).0)
]

-- The last test of `decodes`.
unfoldable pub judge_named : Insn → Result Stop (Result Why Insn)
unfolding first_word
judge_named i = elim (first_word i.text) [
  | none ↦ err index_error
  | some w ↦
      if equal w (codes ".byte")
        || contains (codes "(bad)") i.text
        || contains (codes "????") (i.text ++ i.comment)
      then ok (err (not_decoded i.text))
      else ok (ok i)
]

unfoldable pub judge_insns : Bytes → List Insn → Result Stop (Result Why Insn)
unfolding judge_named hex_of
judge_insns bytes (i ∷ []) =
    if not (equal i.raw (hex_of bytes)) then ok (err (covers i.raw)) else judge_named i
judge_insns bytes is = ok (err (instructions (length is)))

module _ (as_new : Text → ℕ × (Text × Bytes)) (objcopy : Bytes → ℕ × (Text × Bytes))
    (objdump : Bytes → ℕ × (Text × Text)) where
  -- `assemble`: the bytes, or the error string
  unfoldable pub assemble : Text → Result Text Bytes
  assemble source =
      let (rc, (stderr, o)) = as_new (source ++ 10 ∷ []) in
      if not (rc == 0)
      then err (last_line (codes "as failed") stderr)
      else let (rc', (stderr', b)) = objcopy o in
        if not (rc' == 0)
        then err (or_else (codes "objcopy failed") (strip (universal stderr')))
        else ok b

  unfoldable pub disassemble : Bytes → Result Text (List Insn)
  unfolding insns_of
  disassemble bytes =
      let (rc, (stderr, stdout)) = objdump bytes in
      if not (rc == 0)
      then err (last_line (codes "objdump failed") stderr)
      else elim (insns_of (splitlines (universal stdout))) [
        | [] ↦ err (codes "nothing decoded")
        | i ∷ is ↦ ok (i ∷ is)
      ]

  unfoldable pub decodes : Bytes → Result Stop (Result Why Insn)
  unfolding disassemble judge_insns
  decodes bytes = elim (disassemble bytes) [
    | err why ↦ ok (err (tool why))
    | ok is ↦ judge_insns bytes is
  ]

-- ===== src/Elf/Symbols/Changes.antt =====
-- The bytes that the rewrite changes.
use mathlib.Core.Option
use mathlib.Core.Option.{some-injective}
use binutils_mcs.Base.{
  ℕ, zero, suc, ◌+◌, ◌-◌, ◌≤◌, ◌≡◌, refl, ◌==◌, sym, ◌∙◌, ap, Bool, true, false, ◌&&◌, ◌||◌, Option,
  none, some, List, [], ◌∷◌, map, arith, ltb, leb, if◌then◌else◌, Bool-cases, Option-cases, inl,
  inr, Result-cases, >>=-eq-ok, ok, ◌≢◌, length, length-map, get_elem?,
}
use binutils_mcs.Base.Bytes.{
  Bytes, slice, splice, length-slice, length-splice, get_elem?-slice, get_elem?-splice,
}
use binutils_mcs.Elf.Symbols.{
  Failure, not_elf, too_short, bad_class, bad_data, bad_shentsize, past_end, raised, caught, Elf,
  Section, open_elf, sections, upper, uppercase_strtab, strtabs, symtabs, lookup_strtab,
  upper_tables, uppercase_object, uppercase_symbols,
}
use binutils_mcs.Elf.Symbols.Strtab.{uppercase_strtab-map}

upper-upper : (c : ℕ) → upper (upper c) ≡ upper c
unfolding upper
upper-upper c = ground arith

get_elem?-map :
    (f : ℕ → ℕ) (xs : List ℕ) (i : ℕ) → get_elem? (map f xs) i ≡ Option.map f (get_elem? xs i)
get_elem?-map f [] i = refl
get_elem?-map f (x ∷ xs) zero = refl
get_elem?-map f (x ∷ xs) (suc i) = get_elem?-map f xs i

-- Byte `i` lies in the string table that starts at `t.0` and holds `t.1` bytes.
abbrev pub within : ℕ × ℕ → ℕ → Bool
within t i = leb t.0 i && ltb i (t.0 + t.1)

-- The range of the last section of index `n` that is a string table, which has type 3.
abbrev pub table_of : List Section → ℕ → Option (ℕ × ℕ)
table_of [] n = none
table_of (s ∷ rest) n = elim (table_of rest n) [
  | some t ↦ some t
  | none ↦ if s.sh_type == 3 && s.index == n then some (s.sh_offset, s.sh_size) else none
]

-- Byte `i` lies in the table.
abbrev pub in_table : Option (ℕ × ℕ) → ℕ → Bool
in_table none i = false
in_table (some t) i = within t i

-- Byte `i` lies in a string table of `all` that one of the sections names in its link that are symbol tables, of type 2.
abbrev pub linked : List Section → List Section → ℕ → Bool
linked all [] i = false
linked all (s ∷ rest) i =
    (s.sh_type == 2 && in_table (table_of all s.sh_link) i) || linked all rest i

-- What a run leaves of a file with the sections `all`.
pub record IsUppercased (all : List Section) (d out : Bytes) : Type 0 where
  pub same_length : length out ≡ length d
  pub bytes :
      (i : ℕ)
      → get_elem? out i
        ≡ (if linked all all i then Option.map upper (get_elem? d i) else get_elem? d i)

-- The tables that the code has collected in front of those of `ss`.
abbrev or_else : Option (ℕ × ℕ) → Option (ℕ × ℕ) → Option (ℕ × ℕ)
or_else (some t) o = some t
or_else none o = o

or_else-nil : (o : Option (ℕ × ℕ)) → or_else o none ≡ o
or_else-nil none = refl
or_else-nil (some t) = refl

or_else-same : (o p : Option (ℕ × ℕ)) → or_else o p ≡ (elim o [ some t ↦ some t | none ↦ p ])
or_else-same none p = refl
or_else-same (some t) p = refl

or_else_assoc : (o p q : Option (ℕ × ℕ)) → or_else o (or_else p q) ≡ or_else (or_else o p) q
or_else_assoc none p q = refl
or_else_assoc (some t) p q = refl

lookup_strtab-one :
    (s : Section) (tabs : List (ℕ × (ℕ × ℕ))) (n : ℕ)
    → lookup_strtab (if s.sh_type == 3 then (s.index, (s.sh_offset, s.sh_size)) ∷ tabs else tabs) n
      ≡ or_else
          (if s.sh_type == 3 && s.index == n then some (s.sh_offset, s.sh_size) else none)
          (lookup_strtab tabs n)
unfolding lookup_strtab
lookup_strtab-one s tabs n = elim (Bool-cases (s.sh_type == 3)) [
  | inr other ↦ rw other refl
  | inl table ↦
      rw table (elim (Bool-cases (s.index == n)) [
        | inl this ↦ rw this refl
        | inr another ↦ rw another refl
      ])
]

lookup_strtab-strtabs :
    (all : List Section) (tabs : List (ℕ × (ℕ × ℕ))) (n : ℕ)
    → lookup_strtab (strtabs all tabs) n ≡ or_else (table_of all n) (lookup_strtab tabs n)
unfolding strtabs
lookup_strtab-strtabs [] tabs n = refl
lookup_strtab-strtabs (s ∷ rest) tabs n =
    let more = if s.sh_type == 3 then (s.index, (s.sh_offset, s.sh_size)) ∷ tabs else tabs in
    let this = if s.sh_type == 3 && s.index == n then some (s.sh_offset, s.sh_size) else none in
    lookup_strtab-strtabs rest more n
    ∙ ap (or_else (table_of rest n)) (lookup_strtab-one s tabs n)
    ∙ or_else_assoc (table_of rest n) this (lookup_strtab tabs n)
    ∙ ap (λ o. or_else o (lookup_strtab tabs n)) (or_else-same (table_of rest n) this)

-- Byte `i` lies in a table that the code finds for one of the sections.
abbrev covered : List (ℕ × (ℕ × ℕ)) → List Section → ℕ → Bool
covered tabs [] i = false
covered tabs (s ∷ rest) i =
    (elim (lookup_strtab tabs s.sh_link) [ none ↦ false | some t ↦ within t i ])
    || covered tabs rest i

in_table-elim :
    (o : Option (ℕ × ℕ)) (i : ℕ) → (elim o [ none ↦ false | some t ↦ within t i ]) ≡ in_table o i
in_table-elim none i = refl
in_table-elim (some t) i = refl

covered-linked :
    (tabs : List (ℕ × (ℕ × ℕ))) (all ss : List Section) (i : ℕ)
    → ((n : ℕ) → lookup_strtab tabs n ≡ table_of all n)
    → covered tabs (symtabs ss) i ≡ linked all ss i
unfolding symtabs
covered-linked tabs all [] i h = refl
covered-linked tabs all (s ∷ rest) i h =
    let ih = covered-linked tabs all rest i h in
    elim (Bool-cases (s.sh_type == 2)) [
      | inr other ↦ rw other ih
      | inl is ↦ rw is (
          cc (
            ih,
            ap (λ o. in_table o i) (h s.sh_link),
            in_table-elim (lookup_strtab tabs s.sh_link) i,
          ))
    ]

-- One rewrite of a table in range.
rewritten : ℕ × ℕ → Bytes → Bytes
rewritten t d = splice d t.0 (t.0 + t.1) (uppercase_strtab (slice d t.0 (t.0 + t.1)))

length-strtab :
    (d : Bytes) (a b : ℕ) → length (uppercase_strtab (slice d a b)) ≡ length (slice d a b)
length-strtab d a b =
    ap length (uppercase_strtab-map (slice d a b)) ∙ length-map upper (slice d a b)

length-rewritten : (t : ℕ × ℕ) (d : Bytes) → length (rewritten t d) ≡ length d
unfolding rewritten
length-rewritten t d =
    length-splice d t.0 (t.0 + t.1) (uppercase_strtab (slice d t.0 (t.0 + t.1)))
      (length-strtab d t.0 (t.0 + t.1))

get_elem?-slice-within :
    (t : ℕ × ℕ) (d : Bytes) (i : ℕ)
    → within t i ≡ true
    → get_elem? (slice d t.0 (t.0 + t.1)) (i - t.0) ≡ get_elem? d i
get_elem?-slice-within t d i h =
    let here : t.0 + (i - t.0) ≡ i = ground arith in
    let near : ltb (i - t.0) (t.0 + t.1 - t.0) ≡ true = ground arith in
    get_elem?-slice d t.0 (t.0 + t.1) (i - t.0) ∙ rw (near, here)

get_elem?-rewritten :
    (t : ℕ × ℕ) (d : Bytes) (i : ℕ)
    → t.0 + t.1 ≤ length d
    → get_elem? (rewritten t d) i
      ≡ (if within t i then Option.map upper (get_elem? d i) else get_elem? d i)
unfolding rewritten
get_elem?-rewritten t d i h =
    let tab = slice d t.0 (t.0 + t.1) in
    let size : length tab ≡ t.1 = omega (arith, length-slice d t.0 (t.0 + t.1)) in
    rw (uppercase_strtab-map) (
      get_elem?-splice d t.0 (t.0 + t.1) (map upper tab) i (length-map upper tab)
      ∙ rw (length-map upper tab, size)
          (elim (Bool-cases (within t i)) [
            | inl inside ↦ rw inside (
                get_elem?-map upper tab (i - t.0)
                ∙ ap (Option.map upper) (get_elem?-slice-within t d i inside))
            | inr outside ↦ rw outside refl
          ]))

-- What the loop over the symbol tables leaves of the file.
record IsCovered (tabs : List (ℕ × (ℕ × ℕ))) (ss : List Section) (d out : Bytes) : Type 0 where
  pub same_length : length out ≡ length d
  pub bytes :
      (i : ℕ)
      → get_elem? out i
        ≡ (if covered tabs ss i then Option.map upper (get_elem? d i) else get_elem? d i)

merge :
    (p q : Bool) (o : Option ℕ)
    → (if q
        then Option.map upper (if p then Option.map upper o else o)
        else (if p then Option.map upper o else o))
      ≡ (if p || q then Option.map upper o else o)
merge true true none = refl
merge true true (some x) = ap some (upper-upper x)
merge true false o = refl
merge false true o = refl
merge false false o = refl

upper_tables-cons :
    (tabs : List (ℕ × (ℕ × ℕ))) (s : Section) (rest : List Section) (d : Bytes) {out : Bytes}
    → upper_tables tabs (s ∷ rest) d ≡ some out
    → (t : ℕ × ℕ) × (lookup_strtab tabs s.sh_link ≡ some t)
      × (t.0 + t.1 ≤ length d)
      × (upper_tables tabs rest (rewritten t d) ≡ some out)
unfolding upper_tables rewritten
upper_tables-cons tabs s rest d h = elim (Option-cases (lookup_strtab tabs s.sh_link)) [
  | inl missing ↦ cc (rw (missing, upper_tables) at h)
  | inr (t, found) ↦ elim (Bool-cases (ltb (length d) (t.0 + t.1))) [
    | inl past ↦ cc (rw (past, upper_tables) at (rw (found, upper_tables) at h))
    | inr inside ↦
        (t, found, ground arith, rw (inside, upper_tables) at (rw (found, upper_tables) at h))
  ]
]

upper_tables-IsCovered :
    (tabs : List (ℕ × (ℕ × ℕ))) (ss : List Section) (d : Bytes) {out : Bytes}
    → upper_tables tabs ss d ≡ some out
    → IsCovered tabs ss d out
unfolding upper_tables
upper_tables-IsCovered tabs [] d {out} h =
    let same : out ≡ d = sym (some-injective d out h) in
    record { same_length = ap length same; bytes = λ i. ap (λ (l : Bytes). get_elem? l i) same }
upper_tables-IsCovered tabs (s ∷ rest) d {out} h =
    let (t, found, inside, later) = upper_tables-cons tabs s rest d h in
    let ih = upper_tables-IsCovered tabs rest (rewritten t d) later in
    record {
      same_length = ih.same_length ∙ length-rewritten t d;
      bytes = λ i.
          rw (found, covered)
            (ih.bytes i
              ∙ rw (get_elem?-rewritten t d i inside)
                  (merge (within t i) (covered tabs rest i) (get_elem? d i)));
    }

caught-ne-some : (why : Failure) (out : Bytes) → caught why ≢ ok (some out)
caught-ne-some (raised x) out = cc
caught-ne-some not_elf out = cc
caught-ne-some (too_short n) out = cc
caught-ne-some (bad_class n) out = cc
caught-ne-some (bad_data n) out = cc
caught-ne-some (bad_shentsize n) out = cc
caught-ne-some past_end out = cc

uppercase_object-IsUppercased :
    (e : Elf) (d : Bytes) {out : Bytes}
    → uppercase_object e d ≡ ok (some out)
    → (all : List Section) × (sections e d ≡ ok all) × IsUppercased all d out
unfolding uppercase_object
uppercase_object-IsUppercased e d h =
    let (all, read, done) = >>=-eq-ok (sections e d) _ h in
    let run = upper_tables-IsCovered (strtabs all []) (symtabs all) d (cc done) in
    let found : (n : ℕ) → lookup_strtab (strtabs all []) n ≡ table_of all n =
      λ n. unfold lookup_strtab in lookup_strtab-strtabs all [] n ∙ or_else-nil (table_of all n) in
    (
      all,
      read,
      record {
        same_length = run.same_length;
        bytes = λ i.
            run.bytes i
            ∙ ap (λ b. if b then Option.map upper (get_elem? d i) else get_elem? d i)
                (covered-linked (strtabs all []) all all i found);
      },
    )

-- A file that is written has the length of the one that was read. A byte of it is upper-cased if
-- it lies in a table that a symbol table (type 2) links, the last section of type 3 with that index, and is the byte that
-- was read if not.
pub uppercase_symbols-IsUppercased :
    (d : Bytes) {out : Bytes}
    → uppercase_symbols d ≡ ok (some out)
    → (e : Elf) × (all : List Section) × (open_elf d ≡ ok e)
      × (sections e d ≡ ok all)
      × IsUppercased all d out
unfolding uppercase_symbols uppercase_object
uppercase_symbols-IsUppercased d {out} h = elim (Result-cases (open_elf d)) [
  | inr (why, refused) ↦ absurd (caught-ne-some why out (rw (refused, uppercase_symbols) at h))
  | inl (e, opened) ↦ elim (Result-cases (uppercase_object e d)) [
    | inr (why, refused) ↦ absurd (
        caught-ne-some why out
          (rw (refused, uppercase_symbols) at (rw (opened, uppercase_symbols) at h)))
    | inl (o, done) ↦
        let same : o ≡ some out =
          cc (rw (done, uppercase_symbols) at (rw (opened, uppercase_symbols) at h)) in
        let (all, read, changed) =
          uppercase_object-IsUppercased e d {out = out} (done ∙ ap ok same) in
        (e, all, opened, read, changed)
  ]
]

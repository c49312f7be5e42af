-- ===== src/Mutation/Mutants/Files.antt =====
-- The ids of the mutants of all operators in all files.
use binutils_mcs.Base.{
  ◌≡◌, ◌≢◌, sym, ◌∙◌, Option, some, List, [], ◌∷◌, ◌++◌, All, All-map, All-append, Bool-cases,
  Option-cases, inl, inr,
}
use mathlib.Core.Path.{subst}
use mathlib.Core.Option.{some-injective}
use binutils_mcs.Base.Int.{ℤ}
use binutils_mcs.Base.Text.{Text}
use binutils_mcs.Base.Dict.{Dict}
use binutils_mcs.Mutation.Run.{Mutant}
use binutils_mcs.Mutation.Generate.{mask_comments}
use binutils_mcs.Mutation.Scopes.{scoped_lines}
use binutils_mcs.Mutation.Mutants.{
  of_operator, Operator, cap_of, is_chosen, of_file, Generated, missing, duplicate, crashed,
  written, of_files,
}
use binutils_mcs.Mutation.Mutants.Ranked.{Pairwise}
use binutils_mcs.Mutation.Mutants.Ids.{IsFree, split_both}
use binutils_mcs.Mutation.Mutants.Unique.{Unique, HasName, of_operator-Unique, Pairwise-append}

-- The id begins with the key, and behind it with a name of which `P` holds.
abbrev IsNamed : (Text → Type 0) → Text → Mutant → Type 0
IsNamed P key m = (name : Text) × P name × HasName key name m.id

both :
    (x : Text) (ops : List Operator)
    → All (λ (op : Operator). IsFree b'-' op.name) ops
    → All (λ (op : Operator). x ≢ op.name) ops
    → All (λ (op : Operator). IsFree b'-' op.name × (x ≢ op.name)) ops
both x [] h k = tt
both x (o ∷ ops) (h, hs) (k, ks) = ((h, k), both x ops hs ks)

-- Ids of operators with other names are other ids.
named-apart :
    (key name : Text) (m n : Mutant)
    → IsFree b'-' key
    → IsFree b'-' name
    → HasName key name m.id
    → IsNamed (λ other. IsFree b'-' other × (name ≢ other)) key n
    → m.id ≢ n.id
named-apart key name m n k f (s, is) (other, (g, different), (t, at)) e =
    let (_, behind) =
      split_both b'-' key key (name ++ (b'-' ∷ s)) (other ++ (b'-' ∷ t)) k k (sym is ∙ e ∙ at) in
    different (split_both b'-' name other s t f g behind).0

-- The operators have names of their own, without a dash.
abbrev pub AreNamed : List Operator → Type 0
AreNamed ops =
    Pairwise (λ (a b : Operator). a.name ≢ b.name) ops
    × All (λ (op : Operator). IsFree b'-' op.name) ops

-- The id begins with another key.
abbrev OtherKey : Mutant → Text × Text → Type 0
OtherKey m f = (k : Text) × (s : Text) × IsFree b'-' k × (k ≢ f.0) × (m.id ≡ k ++ (b'-' ∷ s))

keys_apart :
    (m n : Mutant) (f : Text × Text)
    → IsFree b'-' f.0
    → OtherKey m f
    → IsNamed (λ name. Unit {0}) f.0 n
    → m.id ≢ n.id
keys_apart m n f free (k, s, free', different, is) (name, _, (t, at)) e =
    different (split_both b'-' k f.0 s (name ++ (b'-' ∷ t)) free' free (sym is ∙ e ∙ at)).0

other_keys :
    (m : Mutant) (f : Text × Text) (fs : List (Text × Text))
    → IsFree b'-' f.0
    → IsNamed (λ name. Unit {0}) f.0 m
    → All (λ (g : Text × Text). f.0 ≢ g.0) fs
    → All (OtherKey m) fs
other_keys m f fs free (name, _, (s, is)) h = All-map (λ g d. (f.0, _, free, d, is)) fs h

-- What `main` ends in without a complaint of its last check.
abbrev pub IsSound : Generated → Type 0
IsSound (written ms) = Unique ms
IsSound (duplicate id) = ⊥
IsSound (missing rel) = Unit
IsSound crashed = Unit

abbrev pub AreKeys : List (Text × Text) → Type 0
AreKeys fs =
    Pairwise (λ (f g : Text × Text). f.0 ≢ g.0) fs × All (λ (f : Text × Text). IsFree b'-' f.0) fs

module _ (only : Option (List Text)) (cap : ℤ) where
  -- One operator in front of the others.
  joined :
      (key : Text) (P : Text → Type 0) (op : Operator) (ms rest : List Mutant)
      → IsFree b'-' key
      → IsFree b'-' op.name
      → P op.name
      → Unique ms × All (λ (m : Mutant). HasName key op.name m.id) ms
      → Unique rest
        × All (IsNamed (λ other. IsFree b'-' other × (op.name ≢ other)) key) rest
        × All (IsNamed P key) rest
      → Unique (ms ++ rest) × All (IsNamed P key) (ms ++ rest)
  joined key P op ms rest k f p (unique, named) (unique', others, all) = (
    Pairwise-append (λ (m n : Mutant). m.id ≢ n.id) ms rest unique unique'
        (All-map (λ m h. All-map (λ n o. named-apart key op.name m n k f h o) rest others) ms
          named),
    All-append (IsNamed P key) ms rest (All-map (λ m h. (op.name, p, h)) ms named) all,
  )

  of_file-named :
      (key rel : Text) (lines : List Text) (P : Text → Type 0) (ops : List Operator)
      {out : List Mutant}
      → of_file only cap key rel lines ops ≡ some out
      → All (λ (op : Operator). P op.name) ops
      → All (IsNamed P key) out
  unfolding of_file
  of_file-named key rel lines P [] h p = subst (All (IsNamed P key)) (some-injective _ _ h) tt
  of_file-named key rel lines P (op ∷ ops) {out} h (here, p) =
      elim (Option-cases (of_file only cap key rel lines ops)) [
        | inl failed ↦ cc (rw (failed, of_file) at h)
        | inr (rest, run) ↦
            let later = of_file-named key rel lines P ops run p in
            let found = rw (run, of_file) at h in
            elim (Bool-cases (is_chosen only key op)) [
              | inr skipped ↦
                  subst (All (IsNamed P key)) (some-injective rest out (rw skipped at found)) later
              | inl chosen ↦
                  elim (Option-cases (
                    of_operator key rel op.name lines (cap_of cap op.name)
                      (op.run lines (scoped_lines key lines) (mask_comments lines)))) [
                        | inl failed ↦ cc (rw failed at (rw chosen at found))
                        | inr (ms, ran) ↦
                            let (_, named) =
                              of_operator-Unique key rel op.name lines (cap_of cap op.name) _ ran in
                            subst (All (IsNamed P key))
                              (some-injective (ms ++ rest) out (rw ran at (rw chosen at found)))
                              (All-append (IsNamed P key) ms rest
                                (All-map (λ m h. (op.name, here, h)) ms named) later)
                      ]
            ]
      ]

  of_file-Unique :
      (key rel : Text) (lines : List Text) (ops : List Operator) {out : List Mutant}
      → IsFree b'-' key
      → AreNamed ops
      → of_file only cap key rel lines ops ≡ some out
      → Unique out
  unfolding of_file
  of_file-Unique key rel lines [] k names h = subst Unique (some-injective _ _ h) tt
  of_file-Unique key rel lines (op ∷ ops) {out} k ((other, names), (free, frees)) h =
      elim (Option-cases (of_file only cap key rel lines ops)) [
        | inl failed ↦ cc (rw (failed, of_file) at h)
        | inr (rest, run) ↦
            let later = of_file-Unique key rel lines ops k (names, frees) run in
            let found = rw (run, of_file) at h in
            elim (Bool-cases (is_chosen only key op)) [
              | inr skipped ↦ subst Unique (some-injective rest out (rw skipped at found)) later
              | inl chosen ↦
                  elim (Option-cases (
                    of_operator key rel op.name lines (cap_of cap op.name)
                      (op.run lines (scoped_lines key lines) (mask_comments lines)))) [
                        | inl failed ↦ cc (rw failed at (rw chosen at found))
                        | inr (ms, ran) ↦
                            let group =
                              of_operator-Unique key rel op.name lines (cap_of cap op.name) _ ran in
                            let others =
                              of_file-named key rel lines (λ n. IsFree b'-' n × (op.name ≢ n)) ops
                                run (both op.name ops frees other) in
                            subst Unique
                              (some-injective (ms ++ rest) out (rw ran at (rw chosen at found)))
                              (joined key (λ n. Unit {0}) op ms rest k free tt group
                                (later, others, All-map (λ m h. (h.0, tt, h.2)) rest others)).0
                      ]
            ]
      ]

  pub of_files-IsSound :
      (ops : List Operator) (read : Text → Option (List Text)) (fs : Dict Text) (acc : List Mutant)
      → AreNamed ops
      → AreKeys fs
      → Unique acc
      → All (λ m. All (OtherKey m) fs) acc
      → IsSound (of_files only cap ops read fs acc)
  unfolding of_files
  of_files-IsSound ops read [] acc names keys unique apart = unique
  of_files-IsSound ops read ((key, rel) ∷ fs) acc names ((other, keys), (free, frees)) unique
        apart =
      elim (Option-cases (read rel)) [
        | inl absent ↦ rw (absent, of_files) tt
        | inr (lines, found) ↦ elim (Option-cases (of_file only cap key rel lines ops)) [
          | inl failed ↦ rw (found, of_files) (rw failed tt)
          | inr (ms, run) ↦
              let new = of_file-Unique key rel lines ops free names run in
              let named =
                of_file-named key rel lines (λ name. Unit {0}) ops run
                  (All-map (λ op h. tt) ops names.1) in
              let now =
                Pairwise-append (λ (m n : Mutant). m.id ≢ n.id) acc ms unique new
                  (All-map (λ m h. All-map (λ n o. keys_apart m n (key, rel) free h.0 o) ms named)
                    acc apart) in
              let later =
                All-append (λ m. All (OtherKey m) fs) acc ms (All-map (λ m h. h.1) acc apart)
                  (All-map (λ m h. other_keys m (key, rel) fs free h other) ms named) in
              rw (found, of_files)
                (rw run (of_files-IsSound ops read fs (acc ++ ms) names (keys, frees) now later))
        ]
      ]

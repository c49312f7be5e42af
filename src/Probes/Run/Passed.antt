-- ===== src/Probes/Run/Passed.antt =====
-- What a run of the bit probe without a failure has seen.
use binutils_mcs.Base.{
  no_more, ℕ, ◌+◌, ◌≡◌, refl, sym, ap, ◌∙◌, Bool, true, false, ◌&&◌, Option, none, some, List, [],
  ◌∷◌, if◌then◌else◌, ◌==◌, Option-cases, inl, inr, arith, Result, ok, err, >>=-eq-ok, Result-cases,
  All, All-map, get_elem?,
}
use binutils_mcs.Base.Bytes.{Bytes, codes, equal, equal_iff}
use binutils_mcs.Base.Text.{Text, contains, from_hex}
use binutils_mcs.Probes.Bits.{AsmCase, LinkCase, acase}
use binutils_mcs.Probes.Run.{
  Stop, says, assemble, text, bytes_of, compare_bytes, asm_passes, link, link_source, linked_passes,
  complains, link_passes, count_failed, run_cases,
}

both : (a b : Bool) → a && b ≡ true → (a ≡ true) × (b ≡ true)
both true b h = (refl, h)
both false b h = cc

ap_ok : {a b : Bool} → ◌≡◌ {A = Result Stop Bool} (ok a) (ok b) → a ≡ b
ap_ok h = cc h

none_failed : (a l : ℕ) → ◌≡◌ {A = ℕ} (if a + l == 0 then 0 else 1) 0 → (a ≡ 0) × (l ≡ 0)
none_failed a l h = (ground (arith, h), ground (arith, h))

-- What was said is in the words of a `msg`: any words for none, or for one that is empty.
abbrev pub InWords : Option Text → Text → Type 0
InWords none why = Unit
InWords (some []) why = Unit
InWords (some (c ∷ m)) why = contains (c ∷ m) why ≡ true

says-InWords : (msg : Option Text) (why : Text) → says msg why ≡ true → InWords msg why
says-InWords none why h = tt
says-InWords (some []) why h = tt
says-InWords (some (c ∷ m)) why h = h

module _ (Obj : Type 0) (as_new : Text → ℕ × (Text × Obj)) (objcopy : Obj → ℕ × (Text × Bytes))
    (dump_section : Text → Obj → ℕ × Option Bytes)
    (ld : Obj → List (Text × ℕ) → ℕ × (Text × Obj)) where
  -- A case with bytes is assembled to them, and one without is refused in the words of its `msg`.
  abbrev pub AsmPasses : AsmCase → Type 0
  AsmPasses c = elim c.want [
    | none ↦
        (why : Text) × (assemble Obj as_new objcopy dump_section ld c.src ≡ err why)
        × InWords c.msg why
    | some want ↦
        (o : Obj) × (b : Bytes) × (assemble Obj as_new objcopy dump_section ld c.src ≡ ok o)
        × (bytes_of Obj as_new objcopy dump_section ld c.section o ≡ ok (some b))
        × (from_hex want ≡ some b)
  ]

  -- A linked case with a byte has it behind its opcode and no words, and one without has those of its `msg`.
  abbrev pub Linked : Option ℕ → Option Text → Option Obj × Text → Type 0
  Linked none msg out = (m : Text) × (msg ≡ some m) × (contains m out.1 ≡ true)
  Linked (some want) msg out =
      (e : Obj) × (b : Bytes) × (out ≡ (some e, []))
      × (text Obj as_new objcopy dump_section ld e ≡ ok b)
      × (get_elem? b 1 ≡ some want)

  abbrev linked : LinkCase → Obj → Option Obj × Text
  linked c o = link Obj as_new objcopy dump_section ld o ((codes "BDVAR", c.addr) ∷ [])

  abbrev pub LinkPasses : LinkCase → Type 0
  LinkPasses c =
      (o : Obj) × (assemble Obj as_new objcopy dump_section ld (link_source c.off) ≡ ok o)
      × Linked c.want c.msg (linked c o)

  count_failed-zero :
      {C : Type 0} (passes : C → Result Stop Bool) (cs : List C)
      → count_failed Obj as_new objcopy dump_section ld passes cs ≡ ok 0
      → All (λ c. passes c ≡ ok true) cs
  unfolding count_failed
  count_failed-zero passes [] h = tt
  count_failed-zero passes (c ∷ cs) h =
      let (good, run, rest) = >>=-eq-ok (passes c) _ h in
      let (n, runs, end) =
        >>=-eq-ok (count_failed Obj as_new objcopy dump_section ld passes cs) _ rest in
      let (is, none_left) = no_more good n (cc end) in
      (run ∙ ap ok is, count_failed-zero passes cs (runs ∙ ap ok none_left))

  compare_bytes-true :
      (want sec : Text) (o : Obj)
      → compare_bytes Obj as_new objcopy dump_section ld want sec o ≡ ok true
      → (b : Bytes) × (bytes_of Obj as_new objcopy dump_section ld sec o ≡ ok (some b))
        × (from_hex want ≡ some b)
  unfolding compare_bytes
  compare_bytes-true want sec o h =
      let (got, run, rest) = >>=-eq-ok (bytes_of Obj as_new objcopy dump_section ld sec o) _ h in
      elim (Option-cases got) [
        | inl nothing ↦ cc (rw nothing at rest)
        | inr (b, is) ↦ elim (Option-cases (from_hex want)) [
          | inl bad ↦ cc (rw bad at (rw is at rest))
          | inr (w, read) ↦ (
            b,
            run ∙ ap ok is,
            read ∙ ap some (sym ((equal_iff b w).0 (cc (rw read at (rw is at rest))))),
          )
        ]
      ]

  acase-AsmPasses :
      (n s : Text) (w : Option Text) (m : Option Text) (sec : Text)
      → asm_passes Obj as_new objcopy dump_section ld (acase n s w m sec) ≡ ok true
      → AsmPasses (acase n s w m sec)
  unfolding asm_passes
  acase-AsmPasses n s none m sec h =
      elim (Result-cases (assemble Obj as_new objcopy dump_section ld s)) [
        | inl (o, done) ↦ cc (rw (done, asm_passes) at h)
        | inr (why, refused) ↦
            (why, refused, says-InWords m why (ap_ok (rw (refused, asm_passes) at h)))
      ]
  acase-AsmPasses n s (some want) m sec h =
      elim (Result-cases (assemble Obj as_new objcopy dump_section ld s)) [
        | inr (why, refused) ↦ cc (rw (refused, asm_passes) at h)
        | inl (o, done) ↦
            let (b, got, read) = compare_bytes-true want sec o (rw (done, asm_passes) at h) in
            (o, b, done, got, read)
      ]

  linked_passes-Linked :
      (want : ℕ) (msg : Option Text) (out : Option Obj × Text)
      → linked_passes Obj as_new objcopy dump_section ld want out ≡ ok true
      → Linked (some want) msg out
  unfolding linked_passes
  linked_passes-Linked want msg (none, log) h = cc h
  linked_passes-Linked want msg (some e, log) h =
      let (got, run, rest) = >>=-eq-ok (text Obj as_new objcopy dump_section ld e) _ h in
      elim (Option-cases (get_elem? got 1)) [
        | inl short ↦ cc (rw short at rest)
        | inr (b, is) ↦
            let (same, quiet) = both (b == want) (equal log []) (cc (rw is at rest)) in
            (
              e,
              got,
              ap (λ l. (some e, l)) ((equal_iff log []).0 quiet),
              run,
              is ∙ ap some (ground (arith, same)),
            )
      ]

  wanted-Linked :
      (want : Option ℕ) (msg : Option Text) (out : Option Obj × Text)
      → (elim want [
        | none ↦ complains msg out.1
        | some w ↦ linked_passes Obj as_new objcopy dump_section ld w out
      ])
        ≡ ok true
      → Linked want msg out
  wanted-Linked none none out h = cc h
  wanted-Linked none (some m) out h = (m, refl, cc h)
  wanted-Linked (some w) msg out h = linked_passes-Linked w msg out h

  link_passes-LinkPasses :
      (c : LinkCase) → link_passes Obj as_new objcopy dump_section ld c ≡ ok true → LinkPasses c
  unfolding link_passes
  link_passes-LinkPasses c h =
      elim (Result-cases (assemble Obj as_new objcopy dump_section ld (link_source c.off))) [
        | inr (why, refused) ↦ cc (rw (refused, link_passes) at h)
        | inl (o, done) ↦
            (o, done, wanted-Linked c.want c.msg (linked c o) (rw (done, link_passes) at h))
      ]

  -- Exit status 0: every case that is assembled alone gives its bytes, or is refused with a text that contains its `msg`,
  -- if it has one; and every
  -- case that is linked has its byte and no words, or the words of its `msg`.
  pub run_cases-Passes :
      (asm_table : List AsmCase) (link_table : List LinkCase)
      → run_cases Obj as_new objcopy dump_section ld asm_table link_table ≡ ok 0
      → All AsmPasses asm_table × All LinkPasses link_table
  unfolding run_cases
  run_cases-Passes asm_table link_table h =
      let (a, run, rest) =
        >>=-eq-ok
          (count_failed Obj as_new objcopy dump_section ld
            (asm_passes Obj as_new objcopy dump_section ld) asm_table)
          _ h in
      let (l, runs, end) =
        >>=-eq-ok
          (count_failed Obj as_new objcopy dump_section ld
            (link_passes Obj as_new objcopy dump_section ld) link_table)
          _ rest in
      let (a0, l0) = none_failed a l (cc end) in
      (
        All-map (λ c e. acase-AsmPasses c.name c.src c.want c.msg c.section e) asm_table
            (count_failed-zero _ asm_table (run ∙ ap ok a0)),
        All-map (λ c e. link_passes-LinkPasses c e) link_table
            (count_failed-zero _ link_table (runs ∙ ap ok l0)),
      )

-- ===== src/Elf/Archive/Layout.antt =====
-- What `convert_archive` writes, member by member.
use binutils_mcs.Base.{
  ℕ, zero, suc, ◌+◌, ◌≤◌, ◌<◌, ◌≡◌, inl, inr, refl, sym, ap, ◌∙◌, true, some, Bool-cases, arith,
  ltb, ltb→lt, ok, >>=-eq-ok, length,
}
use mathlib.Core.Path.{subst}
use binutils_mcs.Base.Bytes.{Bytes, slice, equal, equal_iff}
use binutils_mcs.Elf.Archive.{ar_magic, read_size, convert_entry, convert_entries, convert_archive}
use binutils_mcs.Base.Text.{rstrip}
use binutils_mcs.Elf.Archive.Body.{mode_of, body_of}
use binutils_mcs.Elf.Archive.Entry.{behind, IsEntry, IsTurn, convert_entry-IsTurn}

-- Behind the last member there are less than 60 bytes, and they are kept.
abbrev pub IsRest : ℕ → Bytes → Bytes → Type 0
IsRest at d out = (length d < at + 60) × (slice out at (length d) ≡ slice d at (length d))

-- The members of `d` from `at` on are converted in `out`, each at the place where it was.
pub data IsConverted (d out : Bytes) : ℕ → Type 0 where
  over : (at : ℕ) → IsRest at d out → IsConverted d out at
  member :
      (at size : ℕ)
      → at + 60 ≤ length d
      → read_size (slice d (at + 48) (at + 58)) ≡ ok size
      → IsEntry at size d out
      → IsConverted d out (behind at size)
      → IsConverted d out at

-- From `k` on two archives are the same.
abbrev SameFrom : ℕ → Bytes → Bytes → Type 0
SameFrom k m d = (length m ≡ length d) × ((c e : ℕ) → k ≤ c → slice m c e ≡ slice d c e)

SameFrom-IsEntry :
    {k : ℕ} (at size : ℕ) {m d out : Bytes}
    → SameFrom k m d
    → k ≤ at
    → IsEntry at size m out
    → IsEntry at size d out
SameFrom-IsEntry at size {m} {d} {out} (l, s) h e = record {
  name = e.name ∙ s at (at + 16) h;
  date = e.date;
  uid = e.uid;
  gid = e.gid;
  mode = e.mode ∙ ap (λ n. mode_of (rstrip n)) (s at (at + 16) h);
  size_field = e.size_field ∙ s (at + 48) (at + 60) (omega arith);
  body =
      sym (ap (λ n. body_of (rstrip n) (slice d (at + 60) (at + 60 + size))) (s at (at + 16) h))
      ∙ sym (
          ap (body_of (rstrip (slice m at (at + 16)))) (s (at + 60) (at + 60 + size) (omega arith)))
      ∙ e.body;
  padding = e.padding ∙ s (at + 60 + size) (behind at size) (omega arith);
}

below-IsEntry :
    (at size : ℕ) (d m out : Bytes)
    → ((c e : ℕ) → e ≤ behind at size → slice out c e ≡ slice m c e)
    → IsEntry at size d m
    → IsEntry at size d out
below-IsEntry at size d m out s e = record {
  name = s at (at + 16) (omega arith) ∙ e.name;
  date = s (at + 16) (at + 28) (omega arith) ∙ e.date;
  uid = s (at + 28) (at + 34) (omega arith) ∙ e.uid;
  gid = s (at + 34) (at + 40) (omega arith) ∙ e.gid;
  mode = s (at + 40) (at + 48) (omega arith) ∙ e.mode;
  size_field = s (at + 48) (at + 60) (omega arith) ∙ e.size_field;
  body = e.body ∙ ap ok (sym (s (at + 60) (at + 60 + size) (omega arith)));
  padding = s (at + 60 + size) (behind at size) (omega arith) ∙ e.padding;
}

SameFrom-IsConverted :
    (k : ℕ) (m d out : Bytes)
    → SameFrom k m d
    → (at : ℕ) → k ≤ at
    → IsConverted m out at
    → IsConverted d out at
SameFrom-IsConverted k m d out (l, s) at h (over _ (short, rest)) = over at (
  omega (arith, l, short),
  subst (λ n. slice out at n ≡ slice d at n) l (rest ∙ s at (length m) h),
)
SameFrom-IsConverted k m d out (l, s) at h (member _ size room is entry more) =
    member at size (omega (arith, l, room))
      (ap read_size (sym (s (at + 48) (at + 58) (omega arith))) ∙ is)
      (SameFrom-IsEntry at size (l, s) h entry)
      (SameFrom-IsConverted k m d out (l, s) (behind at size) (omega arith) more)

-- What the loop leaves of the archive behind a member at `at`.
abbrev IsDone : ℕ → Bytes → Bytes → Type 0
IsDone at d out =
    (length out ≡ length d)
    × ((c e : ℕ) → e ≤ at → slice out c e ≡ slice d c e)
    × IsConverted d out at

short-IsDone : (at : ℕ) (d : Bytes) → ltb (length d) (at + 60) ≡ true → IsDone at d d
short-IsDone at d short =
    (refl, (λ c e below. refl), over at (ltb→lt (length d) (at + 60) short, refl))

turn-IsDone :
    (at : ℕ) (d : Bytes) {size at' : ℕ} (m : Bytes) {out : Bytes}
    → at + 60 ≤ length d
    → IsTurn at d size at' m
    → IsDone at' m out
    → IsDone at d out
turn-IsDone at d {size} {at'} m {out} room t (l, s, c) = (
  l ∙ t.same_length,
  (λ i e below. s i e (omega (arith, t.next)) ∙ t.elsewhere i e (inr below)),
  member at size room t.is_size
      (below-IsEntry at size d m out (λ i e below. s i e (omega (arith, t.next))) t.entry)
      (SameFrom-IsConverted (behind at size) m d out
        (t.same_length, (λ i e above. t.elsewhere i e (inl above))) (behind at size) (omega arith)
        (subst (IsConverted m out) t.next c)),
)

convert_entries-IsDone :
    (n at : ℕ) (d : Bytes) {out : Bytes} → convert_entries n at d ≡ ok out → IsDone at d out
unfolding convert_entries
convert_entries-IsDone zero at d h = elim (Bool-cases (ltb (length d) (at + 60))) [
  | inl short ↦
      subst (IsDone at d) (cc (rw (short, convert_entries) at h)) (short-IsDone at d short)
  | inr more ↦ cc (rw (more, convert_entries) at h)
]
convert_entries-IsDone (suc n) at d h = elim (Bool-cases (ltb (length d) (at + 60))) [
  | inl short ↦
      subst (IsDone at d) (cc (rw (short, convert_entries) at h)) (short-IsDone at d short)
  | inr more ↦
      let ((at', m), turn, rest) =
        >>=-eq-ok (convert_entry at d) _ (rw (more, convert_entries) at h) in
      let room : at + 60 ≤ length d = ground (arith, more) in
      let (size, t) = convert_entry-IsTurn at d room turn in
      turn-IsDone at d m room t (convert_entries-IsDone n at' m rest)
]

-- An archive that is written has the length of the one that was read, and its members stand where they stood:
-- each has its name and its size, the stamps and the mode of an archive without times, and its body
-- converted; what is behind the last member is kept.
pub convert_archive-IsConverted :
    (d : Bytes) {out : Bytes}
    → convert_archive d ≡ ok (some out)
    → (length out ≡ length d) × (slice out 0 8 ≡ ar_magic) × IsConverted d out 8
unfolding convert_archive
convert_archive-IsConverted d {out} h = elim (Bool-cases (equal (slice d 0 8) ar_magic)) [
  | inr other ↦ cc (rw other at h)
  | inl magic ↦
      let (new, run, same) = >>=-eq-ok (convert_entries (length d) 8 d) _ (rw magic at h) in
      let (l, s, c) = convert_entries-IsDone (length d) 8 d (run ∙ ap ok (cc same)) in
      (l, s 0 8 (omega arith) ∙ (equal_iff (slice d 0 8) ar_magic).0 magic, c)
]

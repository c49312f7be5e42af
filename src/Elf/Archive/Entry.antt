-- ===== src/Elf/Archive/Entry.antt =====
-- What one turn of the loop of `convert_archive` does to the archive.
use binutils_mcs.Base.{
  ℕ, ◌+◌, ◌%◌, ◌≤◌, ◌≡◌, ◌⊎◌, inl, inr, sym, ap, ◌∙◌, arith, ok, >>=-eq-ok, length,
}
use binutils_mcs.Base.Bytes.{Bytes, slice, splice, codes, length-slice}
use binutils_mcs.Elf.Archive.{ljust, read_size, stamp, convert_body, next_entry, convert_entry}
use binutils_mcs.Base.Text.{rstrip}
use binutils_mcs.Elf.Archive.Splices.{splice-Spliced}
use binutils_mcs.Elf.Archive.Body.{mode_of, body_of, convert_body-Bodied}

-- The three stamps, and nothing else.
record Stamped (at : ℕ) (d out : Bytes) : Type 0 where
  same_length : length out ≡ length d
  date : slice out (at + 16) (at + 28) ≡ codes "0           "
  uid : slice out (at + 28) (at + 34) ≡ codes "0     "
  gid : slice out (at + 34) (at + 40) ≡ codes "0     "
  elsewhere : (c e : ℕ) → (at + 40 ≤ c) ⊎ (e ≤ at + 16) → slice out c e ≡ slice d c e

stamp-Stamped : (at : ℕ) (d : Bytes) → at + 60 ≤ length d → Stamped at d (stamp at d)
unfolding stamp
stamp-Stamped at d h =
    let s₁ =
      splice-Spliced (at + 16) (at + 28) (ljust (codes "0") 12) d (omega arith)
        (omega (arith, length-slice d (at + 16) (at + 28))) in
    let d₁ = splice d (at + 16) (at + 28) (ljust (codes "0") 12) in
    let s₂ =
      splice-Spliced (at + 28) (at + 34) (ljust (codes "0") 6) d₁ (omega arith)
        (omega (arith, s₁.same_length, length-slice d₁ (at + 28) (at + 34))) in
    let d₂ = splice d₁ (at + 28) (at + 34) (ljust (codes "0") 6) in
    let s₃ =
      splice-Spliced (at + 34) (at + 40) (ljust (codes "0") 6) d₂ (omega arith)
        (omega (arith, s₁.same_length, s₂.same_length, length-slice d₂ (at + 34) (at + 40))) in
    record {
      same_length = s₃.same_length ∙ s₂.same_length ∙ s₁.same_length;
      date =
          s₃.elsewhere (at + 16) (at + 28) (inr (omega arith))
          ∙ s₂.elsewhere (at + 16) (at + 28) (inr (omega arith))
          ∙ s₁.inside;
      uid = s₃.elsewhere (at + 28) (at + 34) (inr (omega arith)) ∙ s₂.inside;
      gid = s₃.inside;
      elsewhere = λ c e apart.
          s₃.elsewhere c e (omega arith)
          ∙ s₂.elsewhere c e (omega arith)
          ∙ s₁.elsewhere c e (omega arith);
    }

-- Where the member behind one at `at` begins: bodies are padded to an even length.
abbrev pub behind : ℕ → ℕ → ℕ
behind at size = at + (60 + (size + size % 2))

-- A member of `d` at `at`, and what it is in `out`: its name, its size and the bytes behind its body as they were, the
-- stamps and the mode as `ar` writes them without a time, and the body converted.
pub record IsEntry (at size : ℕ) (d out : Bytes) : Type 0 where
  pub name : slice out at (at + 16) ≡ slice d at (at + 16)
  pub date : slice out (at + 16) (at + 28) ≡ codes "0           "
  pub uid : slice out (at + 28) (at + 34) ≡ codes "0     "
  pub gid : slice out (at + 34) (at + 40) ≡ codes "0     "
  pub mode : slice out (at + 40) (at + 48) ≡ mode_of (rstrip (slice d at (at + 16)))
  pub size_field : slice out (at + 48) (at + 60) ≡ slice d (at + 48) (at + 60)
  pub body :
      body_of (rstrip (slice d at (at + 16))) (slice d (at + 60) (at + 60 + size))
      ≡ ok (slice out (at + 60) (at + 60 + size))
  pub padding :
      slice out (at + 60 + size) (behind at size) ≡ slice d (at + 60 + size) (behind at size)

-- A turn of the loop that does not raise.
pub record IsTurn (at : ℕ) (d : Bytes) (size at' : ℕ) (out : Bytes) : Type 0 where
  pub is_size : read_size (slice d (at + 48) (at + 58)) ≡ ok size
  pub next : at' ≡ behind at size
  pub same_length : length out ≡ length d
  pub entry : IsEntry at size d out
  pub elsewhere : (c e : ℕ) → (behind at size ≤ c) ⊎ (e ≤ at) → slice out c e ≡ slice d c e

pub convert_entry-IsTurn :
    (at : ℕ) (d : Bytes) {at' : ℕ} {out : Bytes}
    → at + 60 ≤ length d
    → convert_entry at d ≡ ok (at', out)
    → (size : ℕ) × IsTurn at d size at' out
unfolding convert_entry
convert_entry-IsTurn at d {at'} {out} h e =
    let (size, is, rest) = >>=-eq-ok (read_size (slice d (at + 48) (at + 58))) _ e in
    let (new, made, done) =
      >>=-eq-ok
        (convert_body (rstrip (slice d at (at + 16))) at size (slice d (at + 60) (at + 60 + size))
          (stamp at d))
        _ rest in
    let s = stamp-Stamped at d h in
    let same : new ≡ out = cc done in
    let goes : at' ≡ next_entry at size = cc done in
    let b =
      convert_body-Bodied (rstrip (slice d at (at + 16))) at size
        (slice d (at + 60) (at + 60 + size)) (stamp at d) (omega (arith, s.same_length))
        (sym (s.elsewhere (at + 60) (at + 60 + size) (inl (omega arith)))) (made ∙ ap ok same) in
    (
      size,
      record {
        is_size = is;
        next = omega (arith, goes);
        same_length = b.same_length ∙ s.same_length;
        entry = record {
          name =
              b.elsewhere at (at + 16) (omega arith) ∙ s.elsewhere at (at + 16) (inr (omega arith));
          date = b.elsewhere (at + 16) (at + 28) (omega arith) ∙ s.date;
          uid = b.elsewhere (at + 28) (at + 34) (omega arith) ∙ s.uid;
          gid = b.elsewhere (at + 34) (at + 40) (omega arith) ∙ s.gid;
          mode = b.mode;
          size_field =
              b.elsewhere (at + 48) (at + 60) (omega arith)
              ∙ s.elsewhere (at + 48) (at + 60) (inl (omega arith));
          body = b.new_body;
          padding =
              b.elsewhere (at + 60 + size) (behind at size) (omega arith)
              ∙ s.elsewhere (at + 60 + size) (behind at size) (inl (omega arith));
        };
        elsewhere = λ c f apart. b.elsewhere c f (omega arith) ∙ s.elsewhere c f (omega arith);
      },
    )

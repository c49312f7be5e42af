-- ===== src/Elf/Archive/Member.antt =====
-- The length of a member that `convert_member` converts.
use binutils_mcs.Base.{
  ℕ, ◌≤◌, ◌≡◌, ◌⊎◌, refl, ap, ◌∙◌, not, some, Option-cases, if◌then◌else◌, ◌==◌, Bool-cases, inl,
  inr, arith, Result, ok, err, length, get_elem?, All,
}
use binutils_mcs.Base.Bytes.{Bytes, slice}
use binutils_mcs.Elf.Struct.{magic, IsByte}
use binutils_mcs.Elf.Convert.Total.{convert_elf-Keeps}
use binutils_mcs.Elf.Symbols.Changes.{uppercase_symbols-IsUppercased}
use binutils_mcs.Elf.Symbols.Total.{uppercase_symbols-total}
use binutils_mcs.Elf.Archive.{Stop, length_changed, member_failed, convert_member}

kept :
    (n m : ℕ) (out : Bytes)
    → n ≡ m
    → ◌≡◌ {A = Result Stop Bytes} (if not (n == m) then err length_changed else ok out) (ok out)
kept n m out h = elim (Bool-cases (n == m)) [
  | inl same ↦ rw same
  | inr other ↦ ground (arith, other, h)
]

-- A member that is a 32-bit ELF object of at least the size of an ELF header is converted to one of its
-- length, or the upper-casing refuses what the first converter wrote; the check of the length never fires.
pub convert_member-Keeps :
    (payload : Bytes)
    → 52 ≤ length payload
    → All IsByte payload
    → slice payload 0 4 ≡ magic
    → get_elem? payload 4 ≡ some 1
    → (convert_member payload ≡ err member_failed)
      ⊎ ((out : Bytes) × (convert_member payload ≡ ok out) × (length out ≡ length payload))
unfolding convert_member
convert_member-Keeps payload h k m c =
    let (mid, done, l) = convert_elf-Keeps payload h k m c in
    let (o, ends) = uppercase_symbols-total mid in
    elim (Option-cases o) [
      | inl refused ↦ inl (rw (done, convert_member) (rw (ends, refused, convert_member) refl))
      | inr (new, is) ↦
          let written = ends ∙ ap ok is in
          let (f, all, opened, read, changed) = uppercase_symbols-IsUppercased mid written in
          let same : length new ≡ length payload = changed.same_length ∙ l in
          inr (
            new,
            rw (done, convert_member)
                (rw (written, convert_member) (kept (length new) (length payload) new same)),
            same,
          )
    ]

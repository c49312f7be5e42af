-- ===== src/Elf/Archive/Ends.antt =====
-- The loop of `convert_archive` ends, unless a size field is below zero.
use binutils_mcs.Base.{
  ℕ, zero, suc, ◌+◌, ◌<◌, ◌≡◌, ◌≢◌, Bool, Option-cases, refl, true, false, none, some,
  if◌then◌else◌, ltb, Bool-cases, inl, inr, arith, Result, ok, err, ◌>>=◌, Result-cases, length,
  not, ◌==◌,
}
use binutils_mcs.Base.Bytes.{Bytes, slice, equal, codes}
use binutils_mcs.Base.Int.{pos, negsuc}
use binutils_mcs.Base.Text.{Text, strip}
use binutils_mcs.Base.Decimal.{read_int}
use binutils_mcs.Elf.Struct.{Exc, unpack_be, magic}
use binutils_mcs.Elf.Convert.{convert_elf}
use binutils_mcs.Elf.Symbols.{uppercase_symbols}
use binutils_mcs.Elf.Archive.{
  Stop, exhausted, length_changed, set_mode, lift, read_size, convert_armap, convert_member,
  convert_body, put_body, stamp, convert_entry, convert_entries, convert_archive, ar_magic,
  next_entry,
}
use binutils_mcs.Base.Text.{rstrip}
use binutils_mcs.Elf.Archive.Entry.{convert_entry-IsTurn}

-- A call that does not run out of fuel.
abbrev Lives : {A : Type 0} → Result Stop A → Type 0
Lives m = m ≢ err exhausted

bind-Lives :
    {A B : Type 0} (m : Result Stop A) (f : A → Result Stop B)
    → Lives m
    → ((a : A) → m ≡ ok a → Lives (f a))
    → Lives (m >>= f)
bind-Lives (ok a) f l k = k a refl
bind-Lives (err e) f l k = λ h. l (cc h)

ok-Lives : {A : Type 0} (a : A) → Lives (ok a)
ok-Lives a h = cc h

lift-Lives : {A : Type 0} (r : Result Exc A) → Lives (lift r)
lift-Lives (ok a) h = cc h
lift-Lives (err e) h = cc h

read_size-Lives : (cs : Bytes) → Lives (read_size cs)
unfolding read_size
read_size-Lives cs h = elim (Option-cases (read_int (strip cs))) [
  | inl bad ↦ cc (rw (bad, read_size) at h)
  | inr (pos n, is) ↦ cc (rw (is, read_size) at h)
  | inr (negsuc n, is) ↦ cc (rw (is, read_size) at h)
]

put_body-Lives :
    (at size : ℕ) (d : Bytes) (r : Result Stop Bytes) → Lives r → Lives (put_body at size d r)
put_body-Lives at size d (ok b) l h = cc h
put_body-Lives at size d (err e) l h = l (cc h)

convert_armap-Lives : (body : Bytes) → Lives (convert_armap body)
unfolding convert_armap
convert_armap-Lives body =
    bind-Lives (lift (unpack_be 4 (slice body 0 4))) _ (lift-Lives (unpack_be 4 (slice body 0 4)))
      λ n is. ok-Lives _

checked-Lives : (short : Bool) (out : Bytes) → Lives (if short then err length_changed else ok out)
checked-Lives true out h = cc h
checked-Lives false out h = cc h

convert_member-Lives : (body : Bytes) → Lives (convert_member body)
unfolding convert_member
convert_member-Lives body h = elim (Result-cases (convert_elf body)) [
  | inr (e, raises) ↦ cc (rw (raises, convert_member) at h)
  | inl (none, fails) ↦ cc (rw (fails, convert_member) at h)
  | inl (some mid, done) ↦ elim (Result-cases (uppercase_symbols mid)) [
    | inr (e, raises) ↦ cc (rw (raises, convert_member) at (rw (done, convert_member) at h))
    | inl (none, fails) ↦ cc (rw (fails, convert_member) at (rw (done, convert_member) at h))
    | inl (some new, done') ↦
        checked-Lives (not (length new == length body)) new
          (rw (done', convert_member) at (rw (done, convert_member) at h))
  ]
]

branches-Lives :
    (a b c : Bool) (x y z w : Result Stop Bytes)
    → Lives x
    → Lives y
    → Lives z
    → Lives w
    → Lives (if a then x else if b then y else if c then z else w)
branches-Lives true b c x y z w lx ly lz lw = lx
branches-Lives false true c x y z w lx ly lz lw = ly
branches-Lives false false true x y z w lx ly lz lw = lz
branches-Lives false false false x y z w lx ly lz lw = lw

convert_body-Lives :
    (name : Text) (at size : ℕ) (body d : Bytes) → Lives (convert_body name at size body d)
unfolding convert_body
convert_body-Lives name at size body d =
    branches-Lives (equal name (codes "/")) (equal name (codes "//")) (equal (slice body 0 4) magic)
      _ _ _ _
      (put_body-Lives at size (set_mode (codes "0") at d) (convert_armap body)
        (convert_armap-Lives body))
      (ok-Lives (set_mode (codes "0") at d))
      (put_body-Lives at size (set_mode (codes "644") at d) (convert_member body)
        (convert_member-Lives body))
      (ok-Lives (set_mode (codes "644") at d))

convert_entry-Lives : (at : ℕ) (d : Bytes) → Lives (convert_entry at d)
unfolding convert_entry
convert_entry-Lives at d =
    bind-Lives (read_size (slice d (at + 48) (at + 58))) _
      (read_size-Lives (slice d (at + 48) (at + 58)))
      λ size is.
        bind-Lives
          (convert_body (rstrip (slice d at (at + 16))) at size (slice d (at + 60) (at + 60 + size))
            (stamp at d))
          _
          (convert_body-Lives (rstrip (slice d at (at + 16))) at size
            (slice d (at + 60) (at + 60 + size)) (stamp at d))
          λ out made. ok-Lives (next_entry at size, out)

convert_entries-Lives :
    (fuel at : ℕ) (d : Bytes) → length d < at + 60 + fuel → Lives (convert_entries fuel at d)
unfolding convert_entries
convert_entries-Lives zero at d l h = elim (Bool-cases (ltb (length d) (at + 60))) [
  | inl short ↦ cc (rw (short, convert_entries) at h)
  | inr more ↦ ground (arith, more, l)
]
convert_entries-Lives (suc fuel) at d l h = elim (Bool-cases (ltb (length d) (at + 60))) [
  | inl short ↦ cc (rw (short, convert_entries) at h)
  | inr more ↦
      bind-Lives (convert_entry at d) _ (convert_entry-Lives at d)
        (λ (at', m) turn.
          let (size, t) = convert_entry-IsTurn at d (ground (arith, more)) turn in
          convert_entries-Lives fuel at' m (omega (arith, t.next, t.same_length, l)))
        (rw (more, convert_entries) at h)
]

-- The fuel is enough: the model of an archive is converted, refused, left with an exception, or has come
-- to a size field below zero, where it stops.
pub convert_archive-ends : (d : Bytes) → convert_archive d ≢ err exhausted
unfolding convert_archive
convert_archive-ends d h = elim (Bool-cases (equal (slice d 0 8) ar_magic)) [
  | inr other ↦ cc (rw (other, convert_archive) at h)
  | inl magic ↦
      bind-Lives (convert_entries (length d) 8 d) _
        (convert_entries-Lives (length d) 8 d (omega arith)) (λ out run. ok-Lives (some out))
        (rw (magic, convert_archive) at h)
]

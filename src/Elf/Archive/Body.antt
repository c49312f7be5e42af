-- ===== src/Elf/Archive/Body.antt =====
-- What a turn of the loop of `convert_archive` does to the mode and the body of a member.
use binutils_mcs.Base.{
  ℕ, ◌+◌, ◌*◌, ◌≤◌, ◌≡◌, ◌⊎◌, inl, inr, refl, sym, ap, ◌∙◌, not, none, some, ◌++◌, map,
  if◌then◌else◌, ◌==◌, Bool-cases, arith, Result, ok, err, >>=-eq-ok, Result-cases, length, take,
  drop, length-append, length-take, length-drop, length-map,
}
use binutils_mcs.Base.Bytes.{Bytes, slice, splice, equal, codes, length-slice}
use mathlib.Core.Path.{subst}
use binutils_mcs.Base.Text.{Text}
use binutils_mcs.Elf.Struct.{magic, unpack_be}
use binutils_mcs.Elf.Symbols.{upper, uppercase_symbols}
use binutils_mcs.Elf.Convert.{convert_elf}
use binutils_mcs.Elf.Archive.{
  Stop, raised, length_changed, ljust, convert_member, convert_armap, armap_upper, lift, set_mode,
  set_body, put_body, convert_body,
}
use binutils_mcs.Elf.Archive.Splices.{Spliced, splice-Spliced}

-- The mode that a member gets by its name.
pub mode_of : Text → Bytes
mode_of name =
    if equal name (codes "/")
    then codes "0       "
    else if equal name (codes "//")
    then codes "0       "
    else codes "644     "

-- An armap has a count of four bytes, as many offsets, and the names, which are upper-cased.
pub armap_of : Bytes → Result Stop Bytes
armap_of body = elim (unpack_be 4 (slice body 0 4)) [
  | err e ↦ err (raised e)
  | ok n ↦ ok (take (4 + 4 * n) body ++ map upper (drop (4 + 4 * n) body))
]

convert_armap-eq : (body : Bytes) → convert_armap body ≡ armap_of body
unfolding convert_armap armap_of
convert_armap-eq body = elim (Result-cases (unpack_be 4 (slice body 0 4))) [
  | inl (n, is) ↦ rw (is, armap_of) refl
  | inr (e, is) ↦ rw (is, armap_of) refl
]

-- The body that a member gets by its name and its body.
pub body_of : Text → Bytes → Result Stop Bytes
body_of name body =
    if equal name (codes "/")
    then armap_of body
    else if equal name (codes "//")
    then ok body
    else if equal (slice body 0 4) magic
    then convert_member body
    else ok body

length-armap_upper : (n : ℕ) (body : Bytes) → length (armap_upper n body) ≡ length body
length-armap_upper n body = omega (
  arith,
  length-append (take n body) (map upper (drop n body)),
  length-map upper (drop n body),
  length-take n body,
  length-drop n body,
)

length-convert_armap :
    (body : Bytes) {out : Bytes} → convert_armap body ≡ ok out → length out ≡ length body
unfolding convert_armap
length-convert_armap body {out} h =
    let (n, read, done) = >>=-eq-ok (lift (unpack_be 4 (slice body 0 4))) _ h in
    let same : armap_upper (4 + 4 * n) body ≡ out = cc done in
    ap length (sym same) ∙ length-armap_upper (4 + 4 * n) body

checked_length :
    (n : ℕ) (new : Bytes) {out : Bytes}
    → ◌≡◌ {A = Result Stop Bytes}
        (if not (length new == n) then err length_changed else ok new)
        (ok out)
    → length out ≡ n
checked_length n new {out} h = ground (arith, h)

length-convert_member :
    (body : Bytes) {out : Bytes} → convert_member body ≡ ok out → length out ≡ length body
unfolding convert_member
length-convert_member body {out} h = elim (Result-cases (convert_elf body)) [
  | inr (e, raises) ↦ cc (rw (raises, convert_member) at h)
  | inl (none, fails) ↦ cc (rw (fails, convert_member) at h)
  | inl (some mid, done) ↦ elim (Result-cases (uppercase_symbols mid)) [
    | inr (e, raises) ↦ cc (rw (raises, convert_member) at (rw (done, convert_member) at h))
    | inl (none, fails) ↦ cc (rw (fails, convert_member) at (rw (done, convert_member) at h))
    | inl (some new, done') ↦
        checked_length (length body) new
          (rw (done', convert_member) at (rw (done, convert_member) at h))
  ]
]

length-body_of :
    (name : Text) (body : Bytes) {out : Bytes}
    → body_of name body ≡ ok out
    → length out ≡ length body
unfolding body_of
length-body_of name body {out} h = ground (
  arith,
  convert_armap-eq body,
  length-convert_armap body {out = out},
  length-convert_member body {out = out},
)

-- What `convert_body` does to the archive: the mode, the body, and nothing else.
pub record Bodied (name : Text) (at size : ℕ) (body d out : Bytes) : Type 0 where
  pub same_length : length out ≡ length d
  pub mode : slice out (at + 40) (at + 48) ≡ mode_of name
  pub new_body : body_of name body ≡ ok (slice out (at + 60) (at + 60 + size))
  pub elsewhere :
      (c e : ℕ)
      → (at + 60 + size ≤ c) ⊎ (e ≤ at + 40) ⊎ ((at + 48 ≤ c) × (e ≤ at + 60))
      → slice out c e ≡ slice d c e

mode-Spliced :
    (mode : Bytes) (at : ℕ) (d : Bytes)
    → length mode ≡ 8
    → at + 60 ≤ length d
    → Spliced (at + 40) (at + 48) mode d (splice d (at + 40) (at + 48) mode)
mode-Spliced mode at d l h =
    splice-Spliced (at + 40) (at + 48) mode d (omega arith)
      (omega (arith, l, length-slice d (at + 40) (at + 48)))

put_body-ok :
    (at size : ℕ) (d : Bytes) (r : Result Stop Bytes) {out : Bytes}
    → put_body at size d r ≡ ok out
    → (b : Bytes) × (r ≡ ok b) × (out ≡ set_body at size d b)
put_body-ok at size d (ok b) h = (b, refl, cc)
put_body-ok at size d (err e) h = cc

module _ (name : Text) (at size : ℕ) (body d : Bytes) (room : at + 60 ≤ length d)
    (here : body ≡ slice d (at + 60) (at + 60 + size)) (mode : Bytes) (wide : length mode ≡ 8)
    (is_mode : mode_of name ≡ mode) where
  moded : Bytes
  moded = splice d (at + 40) (at + 48) mode

  moded-Spliced : Spliced (at + 40) (at + 48) mode d moded
  unfolding moded
  moded-Spliced = mode-Spliced mode at d wide room

  moded-body : slice moded (at + 60) (at + 60 + size) ≡ body
  moded-body = moded-Spliced.elsewhere (at + 60) (at + 60 + size) (inl (omega arith)) ∙ sym here

  moded-Bodied : body_of name body ≡ ok body → Bodied name at size body d moded
  moded-Bodied kept = record {
    same_length = moded-Spliced.same_length;
    mode = moded-Spliced.inside ∙ sym is_mode;
    new_body = kept ∙ ap ok (sym moded-body);
    elsewhere = λ c e apart. moded-Spliced.elsewhere c e (omega arith);
  }

  put-Bodied :
      (b : Bytes) → body_of name body ≡ ok b → Bodied name at size body d (set_body at size moded b)
  put-Bodied b made =
      let s =
        splice-Spliced (at + 60) (at + 60 + size) b moded (omega arith)
          (length-body_of name body made ∙ ap length (sym moded-body)) in
      record {
        same_length = s.same_length ∙ moded-Spliced.same_length;
        mode =
            s.elsewhere (at + 40) (at + 48) (inr (omega arith))
            ∙ moded-Spliced.inside
            ∙ sym is_mode;
        new_body = made ∙ ap ok (sym s.inside);
        elsewhere =
            λ c e apart. s.elsewhere c e (omega arith) ∙ moded-Spliced.elsewhere c e (omega arith);
      }

pub convert_body-Bodied :
    (name : Text) (at size : ℕ) (body d : Bytes) {out : Bytes}
    → at + 60 ≤ length d
    → body ≡ slice d (at + 60) (at + 60 + size)
    → convert_body name at size body d ≡ ok out
    → Bodied name at size body d out
unfolding convert_body moded mode_of
convert_body-Bodied name at size body d {out} room here h =
    elim (Bool-cases (equal name (codes "/"))) [
      | inl armap ↦
          let (b, made, put) = put_body-ok at size _ (convert_armap body) (rw armap at h) in
          subst (Bodied name at size body d) (sym put) (
            put-Bodied name at size body d room here (ljust (codes "0") 8) refl
              (unfold mode_of in rw armap) b
              (unfold body_of in rw (armap, sym (convert_armap-eq body)) made))
      | inr other ↦ elim (Bool-cases (equal name (codes "//"))) [
        | inl names ↦
            let is : set_mode (codes "0") at d ≡ out = cc (rw (other, names) at h) in
            subst (Bodied name at size body d) is (
              moded-Bodied name at size body d room here (ljust (codes "0") 8) refl
                (unfold mode_of in rw (other, names)) (unfold body_of in rw (other, names)))
        | inr plain ↦ elim (Bool-cases (equal (slice body 0 4) magic)) [
          | inl object ↦
              let (b, made, put) =
                put_body-ok at size _ (convert_member body) (rw (other, plain, object) at h) in
              subst (Bodied name at size body d) (sym put) (
                put-Bodied name at size body d room here (ljust (codes "644") 8) refl
                  (unfold mode_of in rw (other, plain)) b
                  (unfold body_of in rw (other, plain, object, made)))
          | inr text ↦
              let is : set_mode (codes "644") at d ≡ out = cc (rw (other, plain, text) at h) in
              subst (Bodied name at size body d) is (
                moded-Bodied name at size body d room here (ljust (codes "644") 8) refl
                  (unfold mode_of in rw (other, plain)) (unfold body_of in rw (other, plain, text)))
        ]
      ]
    ]

-- ===== src/Hex/Image/RoundTrip.antt =====
-- An image that is written as records, in order and without gaps, is read back.
use binutils_mcs.Base.{
  ℕ, zero, suc, ◌+◌, ◌-◌, ◌*◌, ◌/◌, ◌%◌, ◌≤◌, ◌<◌, ◌≡◌, ◌≢◌, refl, ◌∙◌, ap, Bool, true, false, none,
  some, List, [], ◌∷◌, ◌++◌, arith, ltb, lt→ltb, ltb→lt, ==_iff, ◌==◌, if◌then◌else◌, Bool-cases,
  inl, inr, ok, Returns, Returns-bind, Returns-ok, length, length-append, get_elem?,
  get_elem?-append, get_elem?-none, get_elem?-some, list_ext, All,
}
use mathlib.Core.List.{append_assoc, append-nil}
use binutils_mcs.Base.Bytes.{Bytes}
use binutils_mcs.Base.Text.{Text, strip, from_hex, hex_pair, hex_digit, is_hex_blank}
use native.Mathlib.Nat.{add-zero, zero-add}
use binutils_mcs.Elf.Struct.{IsByte}
use binutils_mcs.Hex.Digits.{to_hex, from_hex-to_hex, strip-to_hex}
use binutils_mcs.Hex.Payload.RoundTrip.{
  record_bytes, record_body, checksum, record_text, total-record_bytes, record_bytes-IsByte,
}
use binutils_mcs.Hex.Payload.{total}
use binutils_mcs.Hex.Image.{
  Memory, look, at, store, apply_record, read_record, read_lines, extent, fill, flatten, read_ihex,
}

-- The memory holds exactly the image.
record Holds (mem : Memory) (img : Bytes) : Type 0 where
  looks : (a : ℕ) → look mem a ≡ get_elem? img a
  ends : extent mem ≡ length img

Holds-nil : Holds [] []
Holds-nil = record { looks = λ a. unfold look in refl; ends = unfold extent in refl }

get_elem?-one : (b i : ℕ) → get_elem? (b ∷ []) i ≡ (if i == 0 then some b else none)
get_elem?-one b zero = refl
get_elem?-one b (suc i) = ground arith

Holds-snoc :
    (mem : Memory) (img : Bytes) (b : ℕ)
    → Holds mem img
    → Holds ((length img, b) ∷ mem) (img ++ b ∷ [])
unfolding look extent
Holds-snoc mem img b h = record {
  looks = λ a. ground (
    arith,
    h.looks a,
    get_elem?-append img (b ∷ []) a,
    get_elem?-none img a,
    get_elem?-one b (a - length img),
  );
  ends = omega (arith, h.ends, length-append img (b ∷ []));
}

-- The bytes of `rest` stand in the record from `i` on.
store-Holds :
    (rec : Bytes) (addr i : ℕ) (mem : Memory) (img rest : Bytes)
    → addr + i ≡ length img
    → ((j : ℕ) → j < length rest → get_elem? rec (4 + i + j) ≡ get_elem? rest j)
    → Holds mem img
    → Returns (λ mem'. Holds mem' (img ++ rest)) (store rec addr (length rest) i mem)
unfolding store at
store-Holds rec addr i mem img [] e g h = rw append-nil h
store-Holds rec addr i mem img (b ∷ rest) e g h =
    let here : get_elem? rec (4 + i) ≡ some b =
      ap (get_elem? rec) (omega arith) ∙ g 0 (omega arith) in
    let key : Memory = (addr + i, b) ∷ mem in
    let held : Holds key (img ++ b ∷ []) = rw (← e) at (Holds-snoc mem img b h) in
    rw (here, at)
      (rw (← append_assoc img (b ∷ []) rest) (
        store-Holds rec addr (i + 1) ((addr + i, b) ∷ mem) (img ++ b ∷ []) rest
          (omega (arith, length-append img (b ∷ [])))
          (λ j l. ap (get_elem? rec) (omega arith) ∙ g (suc j) (omega arith)) held))

get_four :
    (a b c d : ℕ) (xs : Bytes) (j : ℕ) → get_elem? (a ∷ b ∷ c ∷ d ∷ xs) (4 + 0 + j) ≡ get_elem? xs j
get_four a b c d xs j =
    let deep : 4 + 0 + j ≡ suc (suc (suc (suc j))) = omega arith in
    ap (get_elem? (a ∷ b ∷ c ∷ d ∷ xs)) deep

payload_at :
    (addr : ℕ) (chunk : Bytes) (j : ℕ)
    → j < length chunk
    → get_elem? (record_bytes addr 0 chunk) (4 + 0 + j) ≡ get_elem? chunk j
unfolding record_bytes
payload_at addr chunk j h =
    let last = checksum (total (record_body addr 0 chunk)) ∷ [] in
    get_four (length chunk) (addr / 256) (addr % 256) 0 (chunk ++ last) j
    ∙ get_elem?-append chunk last j
    ∙ rw (lt→ltb j (length chunk) h) refl

-- A line was read: no end of file, and the memory holds the image.
abbrev Extended : Bytes → Bool × Memory → Type 0
Extended img (done, mem) = (done ≡ false) × Holds mem img

apply_record-Extended :
    (addr : ℕ) (chunk : Bytes) (mem : Memory) (img : Bytes)
    → addr ≡ length img
    → Holds mem img
    → Returns (Extended (img ++ chunk)) (apply_record (record_bytes addr 0 chunk) mem)
unfolding apply_record record_bytes
apply_record-Extended addr chunk mem img e h =
    Returns-bind (λ mem'. Holds mem' (img ++ chunk)) (Extended (img ++ chunk))
      (store (record_bytes addr 0 chunk) (addr / 256 * 256 + addr % 256) (length chunk) 0 mem) _
      (store-Holds (record_bytes addr 0 chunk) (addr / 256 * 256 + addr % 256) 0 mem img chunk
        (omega arith) (payload_at addr chunk) h)
      λ mem' held. (refl, held)

read_record-Extended :
    (addr : ℕ) (chunk : Bytes) (mem : Memory) (img : Bytes)
    → addr ≡ length img
    → addr < 0x10000
    → length chunk < 256
    → All IsByte chunk
    → Holds mem img
    → Returns (Extended (img ++ chunk)) (read_record (strip (record_text addr 0 chunk)) mem)
unfolding read_record record_text
read_record-Extended addr chunk mem img e a l k h =
    let rec = record_bytes addr 0 chunk in
    let bytes = record_bytes-IsByte addr 0 chunk l a (omega arith) k in
    let sum : (total rec % 256 == 0) ≡ true =
      (==_iff (total rec % 256) 0).1 (total-record_bytes addr 0 chunk) in
    rw (strip-to_hex rec bytes) (
      rw (from_hex-to_hex rec bytes, read_record)
        (rw sum (apply_record-Extended addr chunk mem img e h)))

-- The lines of a file: a record for each chunk, one behind the other, an end-of-file record, and
-- whatever stands behind that.
abbrev pub file_lines : ℕ → List Bytes → List Text → List Text
file_lines addr [] rest = record_text 0 1 [] ∷ rest
file_lines addr (chunk ∷ chunks) rest =
    record_text addr 0 chunk ∷ file_lines (addr + length chunk) chunks rest

abbrev pub joined : List Bytes → Bytes
joined [] = []
joined (chunk ∷ chunks) = chunk ++ joined chunks

-- A record holds up to 255 bytes.
abbrev pub IsChunk : Bytes → Type 0
IsChunk chunk = (length chunk < 256) × All IsByte chunk

read_end : (mem : Memory) (rest : List Text) → read_lines (record_text 0 1 [] ∷ rest) mem ≡ ok mem
unfolding read_lines read_record apply_record record_text record_bytes checksum total to_hex
    from_hex hex_pair hex_digit is_hex_blank strip
read_end mem rest = refl

length_pos : (c : Bytes) → c ≢ [] → 0 < length c
length_pos [] h = absurd (h refl)
length_pos (b ∷ c) h = omega arith

read_lines_step :
    (line : Text) (lines : List Text) (mem : Memory) (r : Bool × Memory)
    → read_record (strip line) mem ≡ ok r
    → r.0 ≡ false
    → read_lines (line ∷ lines) mem ≡ read_lines lines r.1
unfolding read_lines
read_lines_step line lines mem r e f = rw (e, read_lines) (rw (f, read_lines) refl)

read_lines-Holds :
    (chunks : List Bytes) (addr : ℕ) (mem : Memory) (img : Bytes) (rest : List Text)
    → addr ≡ length img
    → length img + length (joined chunks) ≤ 0x10000
    → All (λ c. IsChunk c × (c ≢ [])) chunks
    → Holds mem img
    → Returns
        (λ mem'. Holds mem' (img ++ joined chunks))
        (read_lines (file_lines addr chunks rest) mem)
read_lines-Holds [] addr mem img rest e l k h = rw (read_end mem rest, append-nil) h
read_lines-Holds (chunk ∷ chunks) addr mem img rest e l k h =
    let filled = length_pos chunk k.0.1 in
    let (r, read, (more, held)) = Returns-ok (Extended (img ++ chunk)) _ (
      read_record-Extended addr chunk mem img e (omega (arith, length-append chunk (joined chunks)))
        k.0.0.0 k.0.0.1 h) in
    rw
      (
        read_lines_step (record_text addr 0 chunk) (file_lines (addr + length chunk) chunks rest)
            mem r read more,
        ← append_assoc img chunk (joined chunks),
      )
      (read_lines-Holds chunks (addr + length chunk) r.1 (img ++ chunk) rest
        (omega (arith, length-append img chunk))
        (omega (arith, length-append img chunk, length-append chunk (joined chunks))) k.1 held)

get_elem?-fill :
    (mem : Memory) (left a i : ℕ)
    → get_elem? (fill mem left a) i
      ≡ (if ltb i left then some (elim (look mem (a + i)) [ none ↦ 0xff | some b ↦ b ]) else none)
unfolding fill
get_elem?-fill mem zero a i = ground arith
get_elem?-fill mem (suc left) a zero =
    let inside : ltb 0 (suc left) ≡ true = lt→ltb 0 (suc left) (omega arith) in
    rw (add-zero, inside) refl
get_elem?-fill mem (suc left) a (suc i) =
    let next : a + 1 + i ≡ a + suc i = omega arith in
    rw (← next) (ground (arith, get_elem?-fill mem left (a + 1) i))

flatten-Holds : (mem : Memory) (img : Bytes) → img ≢ [] → Holds mem img → flatten mem ≡ ok img
unfolding flatten
flatten-Holds [] [] ne h = absurd (ne refl)
flatten-Holds [] (b ∷ img) ne h = absurd (omega (arith, h.ends))
flatten-Holds (m ∷ mem) img ne h = ap ok (
    list_ext (fill (m ∷ mem) (extent (m ∷ mem)) 0) img λ i. rw h.ends (
      get_elem?-fill (m ∷ mem) (length img) 0 i ∙ elim (Bool-cases (ltb i (length img))) [
        | inl inside ↦
            let (b, e) = get_elem?-some img i (ltb→lt i (length img) inside) in
            rw (inside, zero-add, h.looks i, e) refl
        | inr outside ↦ rw (outside, get_elem?-none img i (ground arith)) refl
      ]))

-- An image of at most 64 KB, written as records of 1 to 255 bytes one behind the other and an
-- end-of-file record, is read back, whatever lines follow.
pub read_ihex-file_lines :
    (chunks : List Bytes) (rest : List Text)
    → joined chunks ≢ []
    → length (joined chunks) ≤ 0x10000
    → All (λ c. IsChunk c × (c ≢ [])) chunks
    → read_ihex (file_lines 0 chunks rest) ≡ ok (joined chunks)
unfolding read_ihex
read_ihex-file_lines chunks rest ne l k =
    let (mem, read, held) =
      Returns-ok (λ mem'. Holds mem' (joined chunks)) _
        (read_lines-Holds chunks 0 [] [] rest refl (omega arith) k Holds-nil) in
    rw read (flatten-Holds mem (joined chunks) ne held)

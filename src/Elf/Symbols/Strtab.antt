-- ===== src/Elf/Symbols/Strtab.antt =====
-- The string table is split at its null bytes, upper-cased string by string and joined again.
use binutils_mcs.Base.{
  ℕ, ◌≡◌, ◌≢◌, refl, sym, ◌∙◌, ap, List, [], ◌∷◌, ◌++◌, map, ◌==◌, Bool-cases, inl, inr, ==_iff,
  length, length-map, take,
}
use binutils_mcs.Base.Bytes.{Bytes}
use mathlib.Core.List.{append_assoc, append-nil}
use binutils_mcs.Elf.Symbols.{upper, cons_head, split_null, join_upper, uppercase_strtab}

joined : List Bytes → Bytes
joined [] = []
joined (s ∷ rest) = map upper s ++ (0 ∷ joined rest)

join_upper-joined : (ss : List Bytes) (out : Bytes) → join_upper out ss ≡ out ++ joined ss
unfolding join_upper joined
join_upper-joined [] out = rw append-nil
join_upper-joined (s ∷ rest) out = simp (join_upper-joined rest, append_assoc)

concat-ne-nil : (xs : Bytes) (y : ℕ) → xs ++ y ∷ [] ≢ []
concat-ne-nil [] y = cc
concat-ne-nil (x ∷ xs) y = cc

joined-cons_head :
    (c : ℕ) (ss : List Bytes) → joined ss ≢ [] → joined (cons_head c ss) ≡ upper c ∷ joined ss
unfolding joined cons_head
joined-cons_head c [] h = absurd (h refl)
joined-cons_head c (s ∷ rest) h = refl

-- The joined strings are the table, upper-cased, and one more null byte.
joined-split_null : (d : Bytes) → joined (split_null d) ≡ map upper d ++ 0 ∷ []
unfolding joined split_null upper
joined-split_null [] = refl
joined-split_null (c ∷ cs) = elim (Bool-cases (c == 0)) [
  | inl null ↦ rw null (rw ((==_iff c 0).0 null) (ap (◌∷◌ 0) (joined-split_null cs)))
  | inr other ↦ rw other (
      joined-cons_head c (split_null cs)
        (λ e. concat-ne-nil (map upper cs) 0 (sym (joined-split_null cs) ∙ e))
      ∙ ap (◌∷◌ (upper c)) (joined-split_null cs))
]

take-append {ℓ} : {A : Type ℓ} (xs ys : List A) → take (length xs) (xs ++ ys) ≡ xs
take-append [] ys = refl
take-append (x ∷ xs) ys = ap (◌∷◌ x) (take-append xs ys)

-- The new string table is the old one with each byte upper-cased.
pub uppercase_strtab-map : (d : Bytes) → uppercase_strtab d ≡ map upper d
unfolding uppercase_strtab
uppercase_strtab-map d =
    ap (take (length d)) (join_upper-joined (split_null d) [] ∙ joined-split_null d)
    ∙ rw (← length-map upper d) (take-append (map upper d) (0 ∷ []))

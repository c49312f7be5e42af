-- ===== src/Base/Dict.antt =====
-- Python's `dict` with texts as keys, as an association list. The order of the entries is that of
-- the first insertion of each key.
use mathlib.Core.Bool.{Bool, true}
use mathlib.Core.List.{List, [], ◌∷◌}
use mathlib.Core.Option.{Option, none, some}
use mathlib.Core.Path.{◌≡◌, refl}
use native.Mathlib.Omega.{arith}
use package.binutils_mcs.Base.Tests.{if◌then◌else◌, Bool-cases}
use mathlib.Core.Logic.{inl, inr}
use package.binutils_mcs.Base.Lists.{any}
use package.binutils_mcs.Base.Bytes.{equal, equal_iff}
use package.binutils_mcs.Base.Text.{Text}

abbrev pub Dict {ℓ} : Type ℓ → Type ℓ
Dict V = List (Text × V)

-- `p in ps`
abbrev pub member : Text → List Text → Bool
member p = any (equal p)

module _ {ℓ} {V : Type ℓ} where
  -- `d.get(k)`
  unfoldable pub get : Text → Dict V → Option V
  get k [] = none
  get k ((j, v) ∷ d) = if equal k j then some v else get k d

  -- `d[k] = v`
  unfoldable pub put : Text → V → Dict V → Dict V
  put k v [] = (k, v) ∷ []
  put k v ((j, w) ∷ d) = if equal k j then (j, v) ∷ d else (j, w) ∷ put k v d

  unfoldable pub keys : Dict V → List Text
  keys [] = []
  keys ((j, v) ∷ d) = j ∷ keys d

  pub get-put :
      (k j : Text) (v : V) (d : Dict V)
      → get j (put k v d) ≡ (if equal j k then some v else get j d)
  unfolding get put
  get-put k j v [] = refl
  get-put k j v ((i, w) ∷ d) =
      ground (arith, get-put k j v d, equal_iff k i, equal_iff j i, equal_iff j k)

  -- A key with a value is one of the keys.
  pub member-keys : (k : Text) (d : Dict V) {v : V} → get k d ≡ some v → member k (keys d) ≡ true
  unfolding get keys
  member-keys k [] h = cc
  member-keys k ((j, w) ∷ d) h = elim (Bool-cases (equal k j)) [
    | inl same ↦ rw same
    | inr other ↦ rw other (member-keys k d (rw (other, get) at h))
  ]

  -- ... and each of the keys has a value.
  pub get-keys : (k : Text) (d : Dict V) → member k (keys d) ≡ true → (v : V) × (get k d ≡ some v)
  unfolding get keys
  get-keys k [] h = cc
  get-keys k ((j, w) ∷ d) h = elim (Bool-cases (equal k j)) [
    | inl same ↦ (w, rw same)
    | inr other ↦ let (v, is) = get-keys k d (rw other at h) in (v, rw other is)
  ]

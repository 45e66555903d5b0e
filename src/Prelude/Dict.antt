-- ===== src/Prelude/Dict.antt =====
-- Python dictionaries: association lists in insertion order, over keys with an equality.
use Prim.Native.Nat.{◌+◌, ◌≤◌}
use mathlib.Core.Path.{◌≡◌, refl}
use mathlib.Core.Logic.{inl, inr, ◌≢◌}
use mathlib.Core.List.{List, [], ◌∷◌, ◌++◌}
use mathlib.Core.Option.{Option, none, some}
use native.Mathlib.Omega.{arith}
use wizard_w.Prelude.Tests.{Eq, ◌==◌, if◌then◌else◌, Bool-cases}
use wizard_w.Prelude.Lists.{length}

abbrev pub Dict {ℓ κ} : Type ℓ → Type κ → Type (ℓ ⊔ κ)
Dict K V = List (K × V)

abbrev pub values {ℓ κ} : {K : Type ℓ} {V : Type κ} → Dict K V → List V
values [] = []
values ((k, v) ∷ d) = v ∷ values d

abbrev pub keys {ℓ κ} : {K : Type ℓ} {V : Type κ} → Dict K V → List K
keys [] = []
keys ((k, v) ∷ d) = k ∷ keys d

module _ {ℓ κ} {K : Type ℓ} {V : Type κ} ⦃e : Eq K⦄ where
  -- `d.get(k)`
  unfoldable pub lookup : K → Dict K V → Option V
  lookup k [] = none
  lookup k ((j, v) ∷ d) = if j == k then some v else lookup k d

  -- `d[k] = v`: a present key keeps its place, a new one goes to the end.
  unfoldable pub insert : K → V → Dict K V → Dict K V
  insert k v [] = (k, v) ∷ []
  insert k v ((j, w) ∷ d) = if j == k then (j, v) ∷ d else (j, w) ∷ insert k v d

  -- `d.pop(k, None)`, without the value
  unfoldable pub erase : K → Dict K V → Dict K V
  erase k [] = []
  erase k ((j, w) ∷ d) = if j == k then d else (j, w) ∷ erase k d

  -- No key occurs twice, as in every Python dictionary.
  abbrev pub UniqueKeys : Dict K V → Type κ
  UniqueKeys [] = Unit
  UniqueKeys ((j, w) ∷ d) = (lookup j d ≡ none) × UniqueKeys d

  pub lookup-insert :
      (k j : K) (v : V) (d : Dict K V)
      → lookup j (insert k v d) ≡ (if k == j then some v else lookup j d)
  unfolding lookup insert
  lookup-insert k j v [] = refl
  lookup-insert k j v ((i, w) ∷ d) =
      ground (arith, e.decides k j, e.decides i k, e.decides i j, lookup-insert k j v d)

  pub lookup-erase :
      (k j : K) (d : Dict K V)
      → UniqueKeys d
      → lookup j (erase k d) ≡ (if k == j then none else lookup j d)
  unfolding lookup erase
  lookup-erase k j [] u = ground arith
  lookup-erase k j ((i, w) ∷ d) u =
      ground (arith, e.decides k j, e.decides i k, e.decides i j, lookup-erase k j d u.1)

  pub insert-UniqueKeys : (k : K) (v : V) (d : Dict K V) → UniqueKeys d → UniqueKeys (insert k v d)
  unfolding lookup insert
  insert-UniqueKeys k v [] u = (refl, tt)
  insert-UniqueKeys k v ((j, w) ∷ d) u = elim (Bool-cases (e.beq j k)) [
    | inl same ↦ rw same u
    | inr other ↦ rw other (
      ground (arith, lookup-insert k j v d, e.decides k j, e.decides j k),
      insert-UniqueKeys k v d u.1,
    )
  ]

  pub lookup-erase-none : (k j : K) (d : Dict K V) → lookup j d ≡ none → lookup j (erase k d) ≡ none
  unfolding lookup erase
  lookup-erase-none k j [] h = refl
  lookup-erase-none k j ((i, w) ∷ d) h = ground (arith, lookup-erase-none k j d)

  pub erase-UniqueKeys : (k : K) (d : Dict K V) → UniqueKeys d → UniqueKeys (erase k d)
  unfolding lookup erase
  erase-UniqueKeys k [] u = tt
  erase-UniqueKeys k ((j, w) ∷ d) u = elim (Bool-cases (e.beq j k)) [
    | inl same ↦ rw same u.1
    | inr other ↦ rw other (lookup-erase-none k j d u.0, erase-UniqueKeys k d u.1)
  ]

  pub erase_absent : (k : K) (d : Dict K V) → lookup k d ≡ none → erase k d ≡ d
  unfolding lookup erase
  erase_absent k [] h = refl
  erase_absent k ((j, w) ∷ d) h = ground (arith, erase_absent k d)

  pub length-erase : (k : K) (d : Dict K V) → length (erase k d) ≤ length d
  unfolding erase
  length-erase k [] = omega arith
  length-erase k ((j, w) ∷ d) = ground (arith, length-erase k d)

  pub length-insert : (k : K) (v : V) (d : Dict K V) → length (insert k v d) ≤ length d + 1
  unfolding insert
  length-insert k v [] = omega arith
  length-insert k v ((j, w) ∷ d) = ground (arith, length-insert k v d)

  pub insert-ne-nil : (k : K) (v : V) (d : Dict K V) → insert k v d ≢ []
  unfolding insert
  insert-ne-nil k v [] h = cc
  insert-ne-nil k v ((j, w) ∷ d) h = ground arith

  pub lookup-append :
      (k : K) (d d' : Dict K V)
      → lookup k (d ++ d') ≡ elim (lookup k d) [ some v ↦ some v | none ↦ lookup k d' ]
  unfolding lookup
  lookup-append k [] d' = refl
  lookup-append k ((j, w) ∷ d) d' = ground (arith, lookup-append k d d')

  pub UniqueKeys-snoc :
      (k : K) (v : V) (d : Dict K V)
      → UniqueKeys d
      → lookup k d ≡ none
      → UniqueKeys (d ++ ((k, v) ∷ []))
  unfolding lookup
  UniqueKeys-snoc k v [] u absent = (refl, tt)
  UniqueKeys-snoc k v ((j, w) ∷ d) u absent = (
    ground (arith, lookup-append j d ((k, v) ∷ []), e.decides j k, e.decides k j),
    UniqueKeys-snoc k v d u.1 (ground arith),
  )

-- ===== src/Prelude/Totals.antt =====
-- Sums over the values of a dictionary, and filtered dictionaries.
use Prim.Native.Nat.{ℕ, ◌+◌}
use mathlib.Core.Path.{◌≡◌, refl}
use mathlib.Core.Bool.{Bool, false}
use mathlib.Core.Logic.{inl, inr}
use mathlib.Core.List.{[], ◌∷◌}
use mathlib.Core.Option.{none, some}
use native.Mathlib.Omega.{arith}
use wizard_w.Prelude.Tests.{Eq, if◌then◌else◌, Bool-cases}
use wizard_w.Prelude.Lists.{sum_by, filter}
use wizard_w.Prelude.Dict.{Dict, lookup, insert, erase, UniqueKeys}

module _ {ℓ κ} {K : Type ℓ} {V : Type κ} ⦃e : Eq K⦄ (weight : V → ℕ) where
  abbrev pub total : Dict K V → ℕ
  total d = sum_by (λ entry. weight entry.1) d

  abbrev pub weight_at : K → Dict K V → ℕ
  weight_at k d = elim (lookup k d) [ none ↦ 0 | some v ↦ weight v ]

  pub total-insert :
      (k : K) (v : V) (d : Dict K V) → total (insert k v d) + weight_at k d ≡ total d + weight v
  unfolding lookup insert
  total-insert k v [] = omega arith
  total-insert k v ((j, w) ∷ d) = ground (arith, total-insert k v d)

  pub total-erase : (k : K) (d : Dict K V) → total (erase k d) + weight_at k d ≡ total d
  unfolding lookup erase
  total-erase k [] = omega arith
  total-erase k ((j, w) ∷ d) = ground (arith, total-erase k d)

  -- Dropping entries of weight 0 keeps the total.
  pub total-filter :
      (p : V → Bool) (d : Dict K V)
      → ((v : V) → p v ≡ false → weight v ≡ 0)
      → total (filter (λ entry. p entry.1) d) ≡ total d
  total-filter p [] h = refl
  total-filter p ((k, v) ∷ d) h = ground (arith, total-filter p d h, h v)

module _ {ℓ κ} {K : Type ℓ} {V : Type κ} ⦃e : Eq K⦄ (p : V → Bool) where
  pub lookup-filter-none :
      (k : K) (d : Dict K V) → lookup k d ≡ none → lookup k (filter (λ entry. p entry.1) d) ≡ none
  unfolding lookup
  lookup-filter-none k [] h = refl
  lookup-filter-none k ((j, v) ∷ d) h = ground (arith, lookup-filter-none k d)

  pub lookup-filter :
      (k : K) (d : Dict K V)
      → UniqueKeys d
      → lookup k (filter (λ entry. p entry.1) d)
        ≡ elim (lookup k d) [ none ↦ none | some v ↦ if p v then some v else none ]
  unfolding lookup
  lookup-filter k [] u = refl
  lookup-filter k ((j, v) ∷ d) u =
      ground (arith, e.decides j k, lookup-filter k d u.1, lookup-filter-none j d u.0)

  pub filter-UniqueKeys : (d : Dict K V) → UniqueKeys d → UniqueKeys (filter (λ entry. p entry.1) d)
  filter-UniqueKeys [] u = tt
  filter-UniqueKeys ((k, v) ∷ d) u = elim (Bool-cases (p v)) [
    | inl kept ↦ rw kept (lookup-filter-none k d u.0, filter-UniqueKeys d u.1)
    | inr gone ↦ rw gone (filter-UniqueKeys d u.1)
  ]

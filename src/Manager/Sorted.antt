-- ===== src/Manager/Sorted.antt =====
-- Sessions in the order in which they were last seen, read by id.
use wizard_w.Prelude.{
  ℕ, zero, suc, ◌+◌, ◌≤◌, ◌≡◌, ◌≢◌, refl, ap, ◌∙◌, String, List, [], ◌∷◌, Option, none, some, arith,
  if◌then◌else◌, leb, length, take, drop, ◌==◌, string_eq, Bool-cases, inl, inr,
}
use text.Mathlib.TextEquality.{eq_iff}
use wizard_w.Prelude.Dict.{Dict, lookup, erase, values, UniqueKeys, lookup-erase, erase-UniqueKeys}
use wizard_w.Session.{Session}
use wizard_w.Manager.{place, by_last_seen, pop_all, IsKeyed}

module _ {Frame : Type 0} where
  -- The session of an id in a list.
  abbrev pub find : String → List (Session Frame) → Option (Session Frame)
  find k [] = none
  find k (s ∷ ss) = if s.id == k then some s else find k ss

  abbrev pub UniqueIds : List (Session Frame) → Type 0
  UniqueIds [] = Unit
  UniqueIds (s ∷ ss) = (find s.id ss ≡ none) × UniqueIds ss

  -- No session of the list was last seen before a time.
  abbrev pub NoneBefore : ℕ → List (Session Frame) → Type 0
  NoneBefore n ss = (k : String) (s : Session Frame) → find k ss ≡ some s → n ≤ s.last_seen

  abbrev pub Sorted : List (Session Frame) → Type 0
  Sorted [] = Unit
  Sorted (s ∷ ss) = NoneBefore s.last_seen ss × Sorted ss

  find-place :
      (k : String) (s : Session Frame) (ss : List (Session Frame))
      → find s.id ss ≡ none
      → find k (place s ss) ≡ (if s.id == k then some s else find k ss)
  unfolding place
  find-place k s [] h = refl
  find-place k s (t ∷ ts) h =
      ground (arith, find-place k s ts, eq_iff s.id k, eq_iff t.id k, eq_iff t.id s.id)

  place-UniqueIds :
      (s : Session Frame) (ss : List (Session Frame))
      → find s.id ss ≡ none
      → UniqueIds ss
      → UniqueIds (place s ss)
  unfolding place
  place-UniqueIds s [] h u = (refl, tt)
  place-UniqueIds s (t ∷ ts) h u = elim (Bool-cases (leb s.last_seen t.last_seen)) [
    | inl before ↦ rw before (h, u)
    | inr after ↦ rw after (
      ground (arith, find-place t.id s ts, eq_iff s.id t.id, eq_iff t.id s.id),
      place-UniqueIds s ts (ground arith) u.1,
    )
  ]

  place-Sorted :
      (s : Session Frame) (ss : List (Session Frame))
      → find s.id ss ≡ none
      → Sorted ss
      → Sorted (place s ss)
  unfolding place
  place-Sorted s [] h v = (λ k t e. ground arith, tt)
  place-Sorted s (t ∷ ts) h v = elim (Bool-cases (leb s.last_seen t.last_seen)) [
    | inl before ↦ rw before ((λ k x e. ground (arith, v.0 k x)), v)
    | inr after ↦ rw after (
      (λ k x e. ground (arith, find-place k s ts, v.0 k x)),
      place-Sorted s ts (ground arith) v.1,
    )
  ]

  pub find-values :
      (k : String) (d : Dict String (Session Frame)) → IsKeyed d → find k (values d) ≡ lookup k d
  unfolding lookup
  find-values k [] v = refl
  find-values k ((j, s) ∷ d) v =
      ground (arith, find-values k d v.1.1, v.0, eq_iff s.id k, eq_iff j k)

  pub values-UniqueIds : (d : Dict String (Session Frame)) → IsKeyed d → UniqueIds (values d)
  values-UniqueIds [] v = tt
  values-UniqueIds ((j, s) ∷ d) v =
      (find-values s.id d v.1.1 ∙ ap (λ i. lookup i d) v.0 ∙ v.1.0, values-UniqueIds d v.1.1)

  find-by_last_seen :
      (k : String) (ss : List (Session Frame)) → UniqueIds ss → find k (by_last_seen ss) ≡ find k ss
  unfolding by_last_seen
  find-by_last_seen k [] u = refl
  find-by_last_seen k (s ∷ ss) u = ground (
    arith,
    find-place k s (by_last_seen ss),
    find-by_last_seen s.id ss u.1,
    u.0,
    find-by_last_seen k ss u.1,
  )

  by_last_seen-UniqueIds : (ss : List (Session Frame)) → UniqueIds ss → UniqueIds (by_last_seen ss)
  unfolding by_last_seen
  by_last_seen-UniqueIds [] u = tt
  by_last_seen-UniqueIds (s ∷ ss) u =
      place-UniqueIds s (by_last_seen ss) (find-by_last_seen s.id ss u.1 ∙ u.0)
        (by_last_seen-UniqueIds ss u.1)

  by_last_seen-Sorted : (ss : List (Session Frame)) → UniqueIds ss → Sorted (by_last_seen ss)
  unfolding by_last_seen
  by_last_seen-Sorted [] u = tt
  by_last_seen-Sorted (s ∷ ss) u =
      place-Sorted s (by_last_seen ss) (find-by_last_seen s.id ss u.1 ∙ u.0)
        (by_last_seen-Sorted ss u.1)

  length-place :
      (s : Session Frame) (ss : List (Session Frame)) → length (place s ss) ≡ suc (length ss)
  unfolding place
  length-place s [] = refl
  length-place s (t ∷ ts) = ground (arith, length-place s ts)

  pub length-by_last_seen :
      (d : Dict String (Session Frame)) → length (by_last_seen (values d)) ≡ length d
  unfolding by_last_seen
  length-by_last_seen [] = refl
  length-by_last_seen ((k, s) ∷ d) =
      ground (arith, length-place s (by_last_seen (values d)), length-by_last_seen d)

  -- The sessions of a manager, least recently seen first.
  pub record IsOrderOf (d : Dict String (Session Frame)) (ss : List (Session Frame)) : Type 0 where
    pub unique : UniqueIds ss
    pub sorted : Sorted ss
    pub same : (k : String) → find k ss ≡ lookup k d

  pub by_last_seen-IsOrderOf :
      (d : Dict String (Session Frame)) → IsKeyed d → IsOrderOf d (by_last_seen (values d))
  by_last_seen-IsOrderOf d v = record {
    unique = by_last_seen-UniqueIds (values d) (values-UniqueIds d v);
    sorted = by_last_seen-Sorted (values d) (values-UniqueIds d v);
    same = λ k. find-by_last_seen k (values d) (values-UniqueIds d v) ∙ find-values k d v;
  }

  pub find-take-drop :
      (k : String) (n : ℕ) (ss : List (Session Frame))
      → find k ss ≡ elim (find k (take n ss)) [ some s ↦ some s | none ↦ find k (drop n ss) ]
  find-take-drop k zero ss = refl
  find-take-drop k (suc n) [] = refl
  find-take-drop k (suc n) (s ∷ ss) = ground (arith, find-take-drop k n ss)

  pub find-drop :
      (j : String) (n : ℕ) (ss : List (Session Frame)) (t : Session Frame)
      → UniqueIds ss
      → find j (drop n ss) ≡ some t
      → find j ss ≡ some t
  find-drop j zero ss t u h = h
  find-drop j (suc n) [] t u h = h
  find-drop j (suc n) (s ∷ ss) t u h =
      ground (
        arith,
        find-drop j n ss t u.1 h,
        u.0,
        eq_iff s.id j,
        λ (e : s.id ≡ j). ap (λ i. find i ss) e,
      )

  -- In a sorted list, those taken were last seen no later than those left.
  pub take-before-drop :
      (n : ℕ) (ss : List (Session Frame)) (k j : String) (s t : Session Frame)
      → Sorted ss
      → UniqueIds ss
      → find k (take n ss) ≡ some s
      → find j (drop n ss) ≡ some t
      → s.last_seen ≤ t.last_seen
  take-before-drop zero ss k j s t v u hs ht = ground arith
  take-before-drop (suc n) [] k j s t v u hs ht = ground arith
  take-before-drop (suc n) (x ∷ xs) k j s t v u hs ht = elim (Bool-cases (x.id == k)) [
    | inl first ↦ ground (arith, v.0 j t (find-drop j n xs t u.1 ht), hs)
    | inr later ↦ take-before-drop n xs k j s t v.1 u.1 (ground arith) ht
  ]

  pub take-UniqueIds : (n : ℕ) (ss : List (Session Frame)) → UniqueIds ss → UniqueIds (take n ss)
  take-UniqueIds zero ss u = tt
  take-UniqueIds (suc n) [] u = tt
  take-UniqueIds (suc n) (s ∷ ss) u =
      (ground (arith, find-take-drop s.id n ss, u.0), take-UniqueIds n ss u.1)

  pub lookup-pop_all :
      (k : String) (ss : List (Session Frame)) (d : Dict String (Session Frame))
      → UniqueKeys d
      → lookup k (pop_all ss d) ≡ elim (find k ss) [ some s ↦ none | none ↦ lookup k d ]
  unfolding pop_all
  lookup-pop_all k [] d u = refl
  lookup-pop_all k (s ∷ ss) d u = ground (
    arith,
    lookup-pop_all k ss (erase s.id d) (erase-UniqueKeys s.id d u),
    lookup-erase s.id k d u,
  )

  length-erase_present :
      (k : String) (d : Dict String (Session Frame))
      → lookup k d ≢ none
      → length (erase k d) + 1 ≡ length d
  unfolding lookup erase
  length-erase_present k [] h = absurd (h refl)
  length-erase_present k ((j, s) ∷ d) h = ground (arith, length-erase_present k d)

  pub length-pop_all :
      (ss : List (Session Frame)) (d : Dict String (Session Frame))
      → UniqueKeys d
      → UniqueIds ss
      → ((k : String) (s : Session Frame) → find k ss ≡ some s → lookup k d ≢ none)
      → length (pop_all ss d) + length ss ≡ length d
  unfolding pop_all
  length-pop_all [] d u v h = omega arith
  length-pop_all (s ∷ ss) d u v h = ground (
    arith,
    length-erase_present s.id d (h s.id s (ground (arith, eq_iff s.id s.id))),
    length-pop_all ss (erase s.id d) (erase-UniqueKeys s.id d u) v.1 (λ k t found gone.
        let apart : s.id ≢ k = λ e. ground (arith, v.0, ap (λ i. find i ss) e) in
        h k t (ground (arith, eq_iff s.id k))
          (ground (arith, lookup-erase s.id k d u, eq_iff s.id k))),
  )

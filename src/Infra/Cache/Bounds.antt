-- ===== src/Infra/Cache/Bounds.antt =====
-- The cache never holds more than its capacity, nor one key twice.
use mathlib.Core.Path.{subst}
use wizard_w.Prelude.{
  sym, ◌∙◌, ◌⊎◌, ℕ, ◌≤◌, ◌+◌, ◌≡◌, refl, String, Option, some, List, [], ◌∷◌, arith, length,
  length-append, string_eq, ltb, Option-cases, inl, inr, Bool-cases,
}
use text.Mathlib.TextEquality.{eq_iff}
use wizard_w.Prelude.Dict.{
  Dict, lookup, erase, UniqueKeys, lookup-erase, erase-UniqueKeys, insert-UniqueKeys,
  UniqueKeys-snoc, length-erase,
}
use wizard_w.Infra.Cache.{
  Entry, InProcessCache, new_cache, move_to_end, get, evict, put, Call, getting, putting, deleting,
  clearing, perform, perform_all,
}

module _ {V : Type 0} where
  pub length-evict : (n : ℕ) (d : Dict String (Entry V)) → length (evict n d) ≤ n
  unfolding evict
  length-evict n [] = omega arith
  length-evict n (x ∷ d) = ground (arith, length-evict n d)

  pub evict-UniqueKeys : (n : ℕ) (d : Dict String (Entry V)) → UniqueKeys d → UniqueKeys (evict n d)
  unfolding evict
  evict-UniqueKeys n [] u = tt
  evict-UniqueKeys n ((k, v) ∷ d) u = elim (Bool-cases (ltb n (length ((k, v) ∷ d)))) [
    | inl over ↦ rw over (evict-UniqueKeys n d u.1)
    | inr fits ↦ rw fits u
  ]

  pub move_to_end-UniqueKeys :
      (k : String) (d : Dict String (Entry V)) → UniqueKeys d → UniqueKeys (move_to_end k d)
  unfolding move_to_end
  move_to_end-UniqueKeys k d u = elim (Option-cases (lookup k d)) [
    | inl absent ↦ rw (absent, move_to_end) u
    | inr (e, found) ↦
        rw (found, move_to_end)
          (UniqueKeys-snoc k e (erase k d) (erase-UniqueKeys k d u)
            (ground (arith, lookup-erase k k d u, eq_iff k k)))
  ]

  length-erase_found :
      (k : String) (d : Dict String (Entry V)) (e : Entry V)
      → lookup k d ≡ some e
      → length d ≡ length (erase k d) + 1
  unfolding lookup erase
  length-erase_found k [] e h = cc
  length-erase_found k ((j, w) ∷ d) e h = ground (arith, length-erase_found k d e)

  pub length-move_to_end :
      (k : String) (d : Dict String (Entry V)) → length (move_to_end k d) ≡ length d
  unfolding move_to_end
  length-move_to_end k d = elim (Option-cases (lookup k d)) [
    | inl absent ↦ ground arith
    | inr (e, found) ↦
        ground (arith, length-erase_found k d e found, length-append (erase k d) ((k, e) ∷ []))
  ]

  pub record IsValid (c : InProcessCache V) : Type 0 where
    pub unique : UniqueKeys c.store
    pub bounded : length c.store ≤ c.capacity

  put-IsValid :
      (key : String) (value : V) (ttl : Option ℕ) (now : ℕ) (c : InProcessCache V)
      → UniqueKeys c.store
      → IsValid (put key value ttl now c)
  unfolding put
  put-IsValid key value ttl now c u = record {
    unique =
        evict-UniqueKeys c.capacity _
          (move_to_end-UniqueKeys key _ (insert-UniqueKeys key _ c.store u));
    bounded = length-evict c.capacity _;
  }

  -- `get` leaves the store as it is, or drops the expired entry, or moves the entry to the end.
  store-get :
      (key : String) (now : ℕ) (c : InProcessCache V)
      → ((get key now c).1 ≡ c)
        ⊎ ((get key now c).1 ≡ record c { store = erase key c.store })
        ⊎ ((get key now c).1 ≡ record c { store = move_to_end key c.store })
  unfolding get
  store-get key now c = ground arith

  get-IsValid :
      (key : String) (now : ℕ) (c : InProcessCache V) → IsValid c → IsValid (get key now c).1
  get-IsValid key now c v = elim (store-get key now c) [
    | inl same ↦ subst (λ d. IsValid d) (sym same) v
    | inr (inl dropped) ↦
        subst (λ d. IsValid d) (sym dropped)
          (record {
            unique = erase-UniqueKeys key c.store v.unique;
            bounded = omega (arith, length-erase key c.store, v.bounded);
          })
    | inr (inr moved) ↦
        subst (λ d. IsValid d) (sym moved)
          (record {
            unique = move_to_end-UniqueKeys key c.store v.unique;
            bounded = omega (arith, length-move_to_end key c.store, v.bounded);
          })
  ]

  perform-IsValid : (call : Call V) (c : InProcessCache V) → IsValid c → IsValid (perform call c)
  unfolding perform
  perform-IsValid (getting key now) c v = get-IsValid key now c v
  perform-IsValid (putting key value ttl now) c v = put-IsValid key value ttl now c v.unique
  perform-IsValid (deleting key) c v = record {
    unique = erase-UniqueKeys key c.store v.unique;
    bounded = omega (arith, length-erase key c.store, v.bounded);
  }
  perform-IsValid clearing c v = record { unique = tt; bounded = omega arith }

  capacity-perform : (call : Call V) (c : InProcessCache V) → (perform call c).capacity ≡ c.capacity
  unfolding perform
  capacity-perform (getting key now) c = ground arith
  capacity-perform _ c = refl

  capacity-perform_all :
      (calls : List (Call V)) (c : InProcessCache V)
      → IsValid c
      → IsValid (perform_all calls c) × ((perform_all calls c).capacity ≡ c.capacity)
  unfolding perform_all
  capacity-perform_all [] c v = (v, refl)
  capacity-perform_all (call ∷ rest) c v =
      let (valid, same) = capacity-perform_all rest (perform call c) (perform-IsValid call c v) in
      (valid, same ∙ capacity-perform call c)

  -- Whatever calls are made on a new cache, it holds at most `capacity` entries and no key twice,
  -- and its capacity stays what it was.
  pub perform_all-IsValid :
      (calls : List (Call V)) (capacity : ℕ)
      → IsValid (perform_all calls (new_cache capacity))
        × ((perform_all calls (new_cache capacity)).capacity ≡ capacity)
  perform_all-IsValid calls capacity =
      capacity-perform_all calls (new_cache capacity)
        (record { unique = tt; bounded = omega arith })

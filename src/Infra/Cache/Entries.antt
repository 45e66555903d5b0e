-- ===== src/Infra/Cache/Entries.antt =====
-- What the cache returns, and which entry goes first.
use wizard_w.Prelude.{
  ℕ, ◌≤◌, ◌<◌, ◌+◌, ◌-◌, suc, zero, ◌≡◌, ◌≢◌, refl, String, Option, none, some, [], ◌∷◌, ◌++◌,
  arith, length, drop, length-append, string_eq, ltb, ltb→lt, if◌then◌else◌, Option-cases, inl, inr,
  Bool-cases,
}
use text.Mathlib.TextEquality.{eq_iff}
use wizard_w.Prelude.Dict.{
  Dict, lookup, insert, erase, UniqueKeys, lookup-insert, lookup-erase, lookup-append,
}
use wizard_w.Infra.Cache.{Entry, InProcessCache, move_to_end, get, evict, expiry, expired, put}

module _ {V : Type 0} where
  evict-eq-drop : (n : ℕ) (d : Dict String (Entry V)) → evict n d ≡ drop (length d - n) d
  unfolding evict
  evict-eq-drop n [] = ground arith
  evict-eq-drop n (x ∷ d) = elim (Bool-cases (ltb n (suc (length d)))) [
    | inl over ↦
        let more : suc (length d) - n ≡ suc (length d - n) =
          omega (arith, ltb→lt n (suc (length d)) over) in
        rw (over, more) (evict-eq-drop n d)
    | inr fits ↦ let none_over : suc (length d) - n ≡ 0 = ground arith in rw (fits, none_over)
  ]

  erase-insert :
      (k : String) (v : Entry V) (d : Dict String (Entry V)) → erase k (insert k v d) ≡ erase k d
  unfolding erase insert
  erase-insert k v [] = ground (arith, eq_iff k k)
  erase-insert k v ((j, w) ∷ d) = ground (arith, erase-insert k v d)

  move_to_end-insert :
      (k : String) (v : Entry V) (d : Dict String (Entry V))
      → move_to_end k (insert k v d) ≡ erase k d ++ ((k, v) ∷ [])
  unfolding move_to_end
  move_to_end-insert k v d = ground (arith, lookup-insert k k v d, eq_iff k k, erase-insert k v d)

  -- `put` moves its key to the end, as the most recently used, and then drops from the front, the
  -- least recently used, just as many entries as are over the capacity.
  pub store-put :
      (key : String) (value : V) (ttl : Option ℕ) (now : ℕ) (c : InProcessCache V)
      → let kept : Dict String (Entry V) = erase key c.store in
        (put key value ttl now c).store
        ≡ drop (length kept + 1 - c.capacity) (kept ++ ((key, (value, expiry now ttl)) ∷ []))
  unfolding put
  store-put key value ttl now c =
      let entry : Entry V = (value, expiry now ttl) in
      rw (move_to_end-insert key entry c.store, evict-eq-drop, length-append)

  drop-snoc :
      (n : ℕ) (d : Dict String (Entry V)) (x : String × Entry V)
      → n ≤ length d
      → drop n (d ++ (x ∷ [])) ≡ drop n d ++ (x ∷ [])
  drop-snoc zero d x h = refl
  drop-snoc (suc n) [] x h = absurd (omega arith)
  drop-snoc (suc n) (y ∷ d) x h = drop-snoc n d x (omega arith)

  lookup-drop-none :
      (n : ℕ) (k : String) (d : Dict String (Entry V))
      → lookup k d ≡ none
      → lookup k (drop n d) ≡ none
  unfolding lookup
  lookup-drop-none zero k d h = h
  lookup-drop-none (suc n) k [] h = refl
  lookup-drop-none (suc n) k ((j, w) ∷ d) h = lookup-drop-none n k d (ground arith)

  -- A value that was put is returned until it expires, and not after; with room for one entry at
  -- least, the cache never drops what was just put.
  get-put :
      (key : String) (value : V) (ttl : Option ℕ) (now later : ℕ) (c : InProcessCache V)
      → 0 < c.capacity
      → UniqueKeys c.store
      → (get key later (put key value ttl now c)).0
        ≡ (if expired later (expiry now ttl) then none else some value)
  get-put key value ttl now later c room u =
      let kept : Dict String (Entry V) = erase key c.store in
      let over : ℕ = length kept + 1 - c.capacity in
      let gone : lookup key (drop over kept) ≡ none =
        lookup-drop-none over key kept
          (ground (arith, lookup-erase key key c.store u, eq_iff key key)) in
      let found : lookup key (put key value ttl now c).store ≡ some (value, expiry now ttl) =
        rw
          (
            store-put key value ttl now c,
            drop-snoc over kept (key, (value, expiry now ttl)) (omega arith),
            lookup-append,
            gone,
          )
          (unfold lookup in ground (arith, eq_iff key key)) in
      unfold get in ground (arith, found)

  lookup-move_to_end_ne :
      (key other : String) (d : Dict String (Entry V))
      → UniqueKeys d
      → key ≢ other
      → lookup other (move_to_end key d) ≡ lookup other d
  unfolding move_to_end
  lookup-move_to_end_ne key other d u ne = elim (Option-cases (lookup key d)) [
    | inl absent ↦ ground arith
    | inr (e, found) ↦
        unfold lookup in
        ground (
          arith,
          eq_iff key other,
          lookup-erase key other d u,
          lookup-append other (erase key d) ((key, e) ∷ []),
        )
  ]

  -- Reading one key does not change what is stored under another.
  pub lookup-get_ne :
      (key other : String) (now : ℕ) (c : InProcessCache V)
      → UniqueKeys c.store
      → key ≢ other
      → lookup other (get key now c).1.store ≡ lookup other c.store
  unfolding get
  lookup-get_ne key other now c u ne = ground (
    arith,
    eq_iff key other,
    lookup-erase key other c.store u,
    lookup-move_to_end_ne key other c.store u ne,
  )

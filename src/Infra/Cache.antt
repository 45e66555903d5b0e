-- ===== src/Infra/Cache.antt =====
-- `InProcessCache` in backend/src/core/infra/cache.py: a bounded store in order of use, with an
-- expiry for each entry. A time is a number of clock ticks, and each call takes the time it reads.
pub mod Bounds
pub mod Entries
use wizard_w.Prelude.{
  ℕ, zero, suc, ◌+◌, String, Bool, false, List, [], ◌∷◌, ◌++◌, Option, none, some, if◌then◌else◌,
  ltb, length, string_eq,
}
use wizard_w.Prelude.Dict.{Dict, lookup, insert, erase}

module _ (V : Type 0) where
  -- A value with the time it expires at.
  abbrev pub Entry : Type 0
  Entry = V × Option ℕ

  pub record InProcessCache : Type 0 where
    pub capacity : ℕ
    pub store : Dict String Entry

-- A call of the cache, with the time that it reads.
pub data Call (V : Type 0) : Type 0 where
  getting : String → ℕ → Call V
  putting : String → V → Option ℕ → ℕ → Call V
  deleting : String → Call V
  clearing : Call V

abbrev pub expired : ℕ → Option ℕ → Bool
expired now none = false
expired now (some expires_at) = ltb expires_at now

-- `time.time() + ttl if ttl else None`: a time to live of 0 counts as none.
unfoldable pub expiry : ℕ → Option ℕ → Option ℕ
expiry now none = none
expiry now (some zero) = none
expiry now (some (suc ttl)) = some (now + suc ttl)

module _ {V : Type 0} where
  abbrev pub new_cache : ℕ → InProcessCache V
  new_cache capacity = record { capacity = capacity; store = [] }

  -- `OrderedDict.move_to_end`
  unfoldable pub move_to_end : String → Dict String (Entry V) → Dict String (Entry V)
  move_to_end key store = elim (lookup key store) [
    | none ↦ store
    | some entry ↦ erase key store ++ ((key, entry) ∷ [])
  ]

  unfoldable pub get : String → ℕ → InProcessCache V → Option V × InProcessCache V
  unfolding move_to_end
  get key now c = elim (lookup key c.store) [
    | none ↦ (none, c)
    | some (value, expires_at) ↦
        if expired now expires_at
        then (none, record c { store = erase key c.store })
        else (some value, record c { store = move_to_end key c.store })
  ]

  -- The loop of `popitem(last=False)`: the first entries go while there are too many.
  unfoldable pub evict : ℕ → Dict String (Entry V) → Dict String (Entry V)
  evict capacity [] = []
  evict capacity (x ∷ store) =
      if ltb capacity (length (x ∷ store)) then evict capacity store else x ∷ store

  unfoldable pub put : String → V → Option ℕ → ℕ → InProcessCache V → InProcessCache V
  unfolding evict expiry move_to_end
  put key value ttl now c = record c {
    store = evict c.capacity (move_to_end key (insert key (value, expiry now ttl) c.store));
  }

  unfoldable pub delete : String → InProcessCache V → InProcessCache V
  delete key c = record c { store = erase key c.store }

  unfoldable pub clear : InProcessCache V → InProcessCache V
  clear c = record c { store = [] }

  unfoldable pub perform : Call V → InProcessCache V → InProcessCache V
  unfolding get put delete clear
  perform (getting key now) c = (get key now c).1
  perform (putting key value ttl now) c = put key value ttl now c
  perform (deleting key) c = delete key c
  perform clearing c = clear c

  unfoldable pub perform_all : List (Call V) → InProcessCache V → InProcessCache V
  perform_all [] c = c
  perform_all (call ∷ rest) c = perform_all rest (perform call c)

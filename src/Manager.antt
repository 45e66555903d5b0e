-- ===== src/Manager.antt =====
-- backend/src/core/session.py, `SessionManager`: the sessions by id. An operation that disposes of
-- sessions returns them in the order in which it does so; a new session's id is given.
pub mod Sorted
pub mod Capacity
pub mod Expiry
use wizard_w.Prelude.{
  ℕ, ◌≡◌, ◌-◌, zero, suc, String, Bool, true, false, List, [], ◌∷◌, ◌++◌, Option, none, some,
  if◌then◌else◌, ltb, leb, length, take, filter, ◌==◌, string_eq,
}
use wizard_w.Prelude.Dict.{Dict, lookup, insert, erase, values, UniqueKeys}
use wizard_w.DataMode.{DataPolicy}
use wizard_w.Session.{Session, new_session, touch}

module _ {Frame : Type 0} where
  -- `sorted(..., key=lambda s: s.last_seen)`: sessions seen at one time stay in their order.
  unfoldable pub place : Session Frame → List (Session Frame) → List (Session Frame)
  place s [] = s ∷ []
  place s (t ∷ ts) = if leb s.last_seen t.last_seen then s ∷ t ∷ ts else t ∷ place s ts

  unfoldable pub by_last_seen : List (Session Frame) → List (Session Frame)
  unfolding place
  by_last_seen [] = []
  by_last_seen (s ∷ ss) = place s (by_last_seen ss)

  unfoldable pub pop_all :
      List (Session Frame) → Dict String (Session Frame) → Dict String (Session Frame)
  pop_all [] d = d
  pop_all (s ∷ ss) d = pop_all ss (erase s.id d)

  -- `_enforce_capacity`
  unfoldable pub enforce_capacity :
      ℕ → Dict String (Session Frame) → List (Session Frame) × Dict String (Session Frame)
  unfolding by_last_seen pop_all
  enforce_capacity max_active d =
      let victims = take (length d - max_active) (by_last_seen (values d)) in
      (victims, pop_all victims d)

  unfoldable pub create :
      ℕ
      → String
      → DataPolicy
      → ℕ
      → Dict String (Session Frame)
      → List (Session Frame) × Dict String (Session Frame)
  unfolding enforce_capacity
  create max_active id policy now d =
      enforce_capacity max_active (insert id (new_session id policy now) d)

  -- `get`, which touches the session that it finds.
  unfoldable pub get :
      Option String
      → ℕ
      → Dict String (Session Frame)
      → Option (Session Frame) × Dict String (Session Frame)
  unfolding touch
  get none now d = (none, d)
  get (some id) now d = if id == "" then (none, d) else elim (lookup id d) [
    | none ↦ (none, d)
    | some s ↦ (some (touch now s), insert id (touch now s) d)
  ]

  unfoldable pub drop_session :
      String → Dict String (Session Frame) → List (Session Frame) × Dict String (Session Frame)
  drop_session id d = elim (lookup id d) [ none ↦ ([], d) | some s ↦ (s ∷ [], erase id d) ]

  unfoldable pub reap_expired :
      ℕ → ℕ → Dict String (Session Frame) → List (Session Frame) × Dict String (Session Frame)
  unfolding pop_all
  reap_expired ttl now d =
      let expired = values (filter (λ entry. ltb entry.1.last_seen (now - ttl)) d) in
      (expired, pop_all expired d)

  -- Every session is kept under its own id, and no id twice.
  abbrev pub IsKeyed : Dict String (Session Frame) → Type 0
  IsKeyed [] = Unit
  IsKeyed ((k, s) ∷ d) = (s.id ≡ k) × ((lookup k d ≡ none) × IsKeyed d)

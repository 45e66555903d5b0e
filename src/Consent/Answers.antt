-- ===== src/Consent/Answers.antt =====
-- Who gets an answer: one request one answer, and a closed socket denies.
use wizard_w.Prelude.{
  ℕ, ◌≡◌, ◌≢◌, ◌&&◌, refl, String, Bool, false, List, [], ◌∷◌, none, some, arith, string_eq,
  if◌then◌else◌, nat_beq_iff, contains, nat_eq,
}
use text.Mathlib.TextEquality.{eq_iff}
use wizard_w.Prelude.Dict.{lookup, values, UniqueKeys, lookup-erase}
use wizard_w.Consent.{
  Future, result, ConsentBroker, bucket, update, is_waiting, resolve, deny_all, abandon,
  waiting_count,
}

-- Whether a request is registered and its future waits.
abbrev pub is_open : String → String → ConsentBroker → Bool
is_open session_id request_id b = elim (lookup request_id (bucket session_id b)) [
  | none ↦ false
  | some handle ↦ is_waiting (b.futures handle)
]

deny_all_lem :
    (handles : List ℕ) (f : ℕ → Future) (h : ℕ)
    → deny_all handles f h ≡ (if contains h handles && is_waiting (f h) then result false else f h)
unfolding deny_all
deny_all_lem [] f h = refl
deny_all_lem (k ∷ handles) f h = ground (
  arith,
  nat_beq_iff k h,
  deny_all_lem handles f h,
  deny_all_lem handles (update f k (result false)) h,
)

-- When a socket goes away, every question of its session that still waits is denied, and one that
-- was answered keeps its answer. No other future changes, nothing of the session is counted as
-- waiting, and a late answer to it is refused without effect.
pub abandon_denies :
    (b : ConsentBroker) (session_id : String) (handle : ℕ)
    → UniqueKeys b.pending
    → ((abandon session_id b).futures handle ≡ (
        if contains handle (values (bucket session_id b)) && is_waiting (b.futures handle)
        then result false
        else b.futures handle))
      × (waiting_count session_id (abandon session_id b) ≡ 0)
      × ((request_id : String) (approved : Bool)
          → resolve session_id request_id approved (abandon session_id b)
            ≡ (false, abandon session_id b))
      × ((other : String)
          → session_id ≢ other
          → waiting_count other (abandon session_id b) ≡ waiting_count other b)
unfolding abandon waiting_count resolve
abandon_denies b session_id handle u = (
  deny_all_lem (values (bucket session_id b)) b.futures handle,
  ground (arith, lookup-erase session_id session_id b.pending u, eq_iff session_id session_id),
  λ request_id approved.
      unfold lookup in
      ground (arith, lookup-erase session_id session_id b.pending u, eq_iff session_id session_id),
  λ other ne. ground (arith, lookup-erase session_id other b.pending u, eq_iff session_id other),
)

-- ===== src/Consent.antt =====
-- backend/src/core/agent/consent.py: the broker that parks a turn on a question. Futures live in a
-- store by handle, since `ask` holds its future also after `abandon` has dropped the registration.
pub mod Answers
pub mod World
pub mod Tidy
pub mod Leaks
use wizard_w.Prelude.{
  ℕ, zero, suc, ◌+◌, String, Bool, true, false, List, [], ◌∷◌, Option, none, some, if◌then◌else◌,
  length, ◌==◌, string_eq, nat_eq, nat_beq,
}
use wizard_w.Prelude.Dict.{Dict, lookup, insert, erase, values}

-- `asyncio.Future[bool]`: waiting, or done with a result, or cancelled.
pub data Future : Type 0 where
  waiting : Future
  result : Bool → Future
  cancelled : Future

-- `_pending`, and the store of the futures that it refers to.
pub record ConsentBroker : Type 0 where
  pub pending : Dict String (Dict String ℕ)
  pub futures : ℕ → Future
  pub next : ℕ

abbrev pub empty_broker : ConsentBroker
empty_broker = record { pending = []; futures = λ _. waiting; next = 0 }

unfoldable pub update : (ℕ → Future) → ℕ → Future → ℕ → Future
update futures handle value h = if nat_beq handle h then value else futures h

abbrev pub bucket : String → ConsentBroker → Dict String ℕ
bucket session_id b = elim (lookup session_id b.pending) [ none ↦ [] | some requests ↦ requests ]

-- The part of `ask` before it waits: a new future, registered. The result is its handle.
unfoldable pub register : String → String → ConsentBroker → ℕ × ConsentBroker
register session_id request_id b = (
  b.next,
  record b {
    pending = insert session_id (insert request_id b.next (bucket session_id b)) b.pending;
    futures = update b.futures b.next waiting;
    next = b.next + 1;
  },
)

abbrev pub is_waiting : Future → Bool
is_waiting waiting = true
is_waiting _ = false

unfoldable pub resolve : String → String → Bool → ConsentBroker → Bool × ConsentBroker
unfolding update
resolve session_id request_id approved b = elim (lookup request_id (bucket session_id b)) [
  | none ↦ (false, b)
  | some handle ↦
      if is_waiting (b.futures handle)
      then (true, record b { futures = update b.futures handle (result approved) })
      else (false, b)
]

-- The loop of `abandon` over the registered futures.
unfoldable pub deny_all : List ℕ → (ℕ → Future) → ℕ → Future
unfolding update
deny_all [] futures = futures
deny_all (handle ∷ rest) futures =
    deny_all rest
      (if is_waiting (futures handle) then update futures handle (result false) else futures)

unfoldable pub abandon : String → ConsentBroker → ConsentBroker
abandon session_id b = record b {
  pending = erase session_id b.pending;
  futures = deny_all (values (bucket session_id b)) b.futures;
}

unfoldable pub waiting_count : String → ConsentBroker → ℕ
waiting_count session_id b = length (bucket session_id b)

abbrev is_nil : Dict String ℕ → Bool
is_nil [] = true
is_nil (_ ∷ _) = false

-- `_discard`: an emptied bucket is removed with its last request.
unfoldable pub discard : String → String → ConsentBroker → ConsentBroker
discard session_id request_id b = elim (lookup session_id b.pending) [
  | none ↦ b
  | some outstanding ↦
      let left = erase request_id outstanding in
      record b {
        pending =
            if is_nil left then erase session_id b.pending else insert session_id left b.pending;
      }
]

pub record ConsentDecision : Type 0 where
  pub approved : Bool
  pub timed_out : Bool

-- Why a parked `ask` goes on: its future is done, `wait_for` timed out, or the task was cancelled.
pub data Wake : Type 0 where
  answered expired stopped : Wake

-- The part of `ask` after it waited, with its `finally`. The outcome is a decision, or none where
-- the cancellation goes on to the caller or there was nothing to wake for; `wait_for` cancels the
-- future that it gave up on.
outcome : Wake → Future → Option ConsentDecision
outcome answered (result approved) = some (record { approved = approved; timed_out = false })
outcome expired waiting = some (record { approved = false; timed_out = true })
outcome _ _ = none

given_up : Future → Future
given_up waiting = cancelled
given_up f = f

unfoldable pub finish :
    String → String → ℕ → Wake → ConsentBroker → Option ConsentDecision × ConsentBroker
unfolding outcome given_up
finish session_id request_id handle wake b = (
  outcome wake (b.futures handle),
  discard session_id request_id
      (record b { futures = update b.futures handle (given_up (b.futures handle)) }),
)

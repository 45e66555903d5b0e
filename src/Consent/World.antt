-- ===== src/Consent/World.antt =====
-- The calls of the broker in any interleaving, and what holds of it throughout.
use wizard_w.Prelude.{
  ℕ, ◌≡◌, ◌≢◌, ◌&&◌, not, String, Bool, true, false, List, [], ◌∷◌, none, some, string_eq, ◌==◌,
  any, filter,
}
use wizard_w.Prelude.Dict.{Dict, lookup, UniqueKeys}
use wizard_w.Consent.{ConsentBroker, empty_broker, is_nil, register, resolve, abandon, finish, Wake}

-- The calls of `ask` that have registered and not yet returned.
pub record World : Type 0 where
  pub broker : ConsentBroker
  pub asks : List (String × String)

abbrev pub same : String → String → String × String → Bool
same session_id request_id (s, r) = s == session_id && r == request_id

abbrev pub live : String → String → List (String × String) → Bool
live session_id request_id asks = any (same session_id request_id) asks

abbrev pub start : World
start = record { broker = empty_broker; asks = [] }

-- One call of the broker, made by any task. A new request has an id that no parked one has (it is a
-- fresh uuid), and only a parked `ask` finishes: answered, timed out or cancelled.
pub data Step : World → World → Type 0 where
  ask :
      (w : World) (session_id request_id : String)
      → live session_id request_id w.asks ≡ false
      → Step w (record {
        broker = (register session_id request_id w.broker).1;
        asks = (session_id, request_id) ∷ w.asks;
      })
  answer :
      (w : World) (session_id request_id : String) (approved : Bool)
      → Step w (record w { broker = (resolve session_id request_id approved w.broker).1 })
  close :
      (w : World) (session_id : String) → Step w (record w { broker = abandon session_id w.broker })
  wake :
      (w : World) (session_id request_id : String) (handle : ℕ) (by : Wake)
      → Step w (record {
        broker = (finish session_id request_id handle by w.broker).1;
        asks = filter (λ a. not (same session_id request_id a)) w.asks;
      })

pub data Reach : World → Type 0 where
  here : Reach start
  next : {w v : World} → Reach w → Step w v → Reach v

abbrev pub Pending : Type 0
Pending = Dict String (Dict String ℕ)

abbrev pub requests_of : String → Pending → Dict String ℕ
requests_of s pending = elim (lookup s pending) [ none ↦ [] | some requests ↦ requests ]

pub record IsTidyFor (pending : Pending) (asks : List (String × String)) : Type 0 where
  pub unique : UniqueKeys pending
  pub buckets : (s : String) → UniqueKeys (requests_of s pending)
  pub filled : (s : String) (d : Dict String ℕ) → lookup s pending ≡ some d → is_nil d ≡ false
  pub parked : (s r : String) → lookup r (requests_of s pending) ≢ none → live s r asks ≡ true

abbrev pub IsTidy : World → Type 0
IsTidy w = IsTidyFor w.broker.pending w.asks

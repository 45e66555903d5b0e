-- ===== src/Consent/Leaks.antt =====
-- Nothing stays registered behind a question that is over, in any interleaving of the calls.
use mathlib.Core.Path.{subst}
use wizard_w.Prelude.{◌≡◌, ◌≢◌, refl, String, true, [], ◌∷◌, none, arith, string_eq}
use text.Mathlib.TextEquality.{eq_iff}
use wizard_w.Prelude.Dict.{lookup}
use wizard_w.Consent.{bucket, finish}
use wizard_w.Consent.World.{
  World, live, Step, ask, answer, close, wake, Reach, here, next, Pending, IsTidyFor, IsTidy,
}
use wizard_w.Consent.Tidy.{
  IsTidy-start, register-IsTidy, abandon-IsTidy, resolve-IsTidy, discard-IsTidy,
}

Step-IsTidy : {w v : World} → Step w v → IsTidy w → IsTidy v
Step-IsTidy (ask w s r fresh) t = register-IsTidy w s r t
Step-IsTidy (answer w s r approved) t = resolve-IsTidy w s r approved t
Step-IsTidy (close w s) t = abandon-IsTidy w s t
Step-IsTidy (wake w s r handle by) t =
    unfold finish in discard-IsTidy (record w.broker { futures = _ }) s r w.asks t

Reach-IsTidy : {w : World} → Reach w → IsTidy w
Reach-IsTidy here = IsTidy-start
Reach-IsTidy (next r st) = Step-IsTidy st (Reach-IsTidy r)

nothing_left : (pending : Pending) → IsTidyFor pending [] → pending ≡ []
nothing_left [] t = refl
nothing_left ((s, []) ∷ rest) t =
    unfold lookup in absurd (ground (arith, t.filled s [], eq_iff s s))
nothing_left ((s, (r, handle) ∷ d) ∷ rest) t =
    unfold lookup in absurd (ground (arith, t.parked s r, eq_iff s s, eq_iff r r))

-- Whatever questions were asked, answered, denied by a closed socket, timed out or cancelled, and in
-- whatever order: once every `ask` has returned, the broker holds no registration at all.
pub no_leaks : (w : World) → Reach w → w.asks ≡ [] → w.broker.pending ≡ []
no_leaks w r done =
    nothing_left w.broker.pending
      (subst (λ asks. IsTidyFor w.broker.pending asks) done (Reach-IsTidy r))

-- A question that is registered always has its `ask` parked on it.
pub registered_is_parked :
    (w : World) (session_id request_id : String)
    → Reach w
    → lookup request_id (bucket session_id w.broker) ≢ none
    → live session_id request_id w.asks ≡ true
registered_is_parked w session_id request_id r h = (Reach-IsTidy r).parked session_id request_id h

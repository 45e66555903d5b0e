-- ===== src/Consent/Tidy.antt =====
-- Each call of the broker keeps the invariant of `World`.
use mathlib.Core.Path.{subst}
use wizard_w.Prelude.{
  ℕ, sym, ◌≡◌, ◌&&◌, not, refl, String, Bool, true, false, List, [], ◌∷◌, some, arith, string_eq,
  if◌then◌else◌, ◌==◌, filter, Option-cases, Bool-cases, inl, inr,
}
use text.Mathlib.TextEquality.{eq_iff}
use wizard_w.Prelude.Dict.{
  Dict, lookup, insert, erase, UniqueKeys, lookup-insert, lookup-erase, insert-UniqueKeys,
  erase-UniqueKeys, insert-ne-nil,
}
use wizard_w.Consent.{ConsentBroker, bucket, is_nil, register, resolve, abandon, discard}
use wizard_w.Consent.World.{World, same, live, start, Pending, IsTidyFor, IsTidy}

pub IsTidy-start : IsTidy start
unfolding lookup
IsTidy-start = record {
  unique = tt;
  buckets = λ s. tt;
  filled = λ s d h. cc;
  parked = λ s r h. absurd (h refl);
}

bucket-register :
    (b : ConsentBroker) (s r s' : String)
    → bucket s' (register s r b).1 ≡ (if s == s' then insert r b.next (bucket s b) else bucket s' b)
unfolding register
bucket-register b s r s' =
    ground (arith, lookup-insert s s' (insert r b.next (bucket s b)) b.pending)

bucket-abandon :
    (b : ConsentBroker) (s s' : String)
    → UniqueKeys b.pending
    → bucket s' (abandon s b) ≡ (if s == s' then [] else bucket s' b)
unfolding abandon
bucket-abandon b s s' u = ground (arith, lookup-erase s s' b.pending u)

is_nil-eq : (d : Dict String ℕ) → is_nil d ≡ true → d ≡ []
is_nil-eq [] h = refl
is_nil-eq (x ∷ d) h = cc

bucket-discard :
    (b : ConsentBroker) (s r s' : String)
    → UniqueKeys b.pending
    → bucket s' (discard s r b) ≡ (if s == s' then erase r (bucket s b) else bucket s' b)
unfolding discard
bucket-discard b s r s' u = elim (Option-cases (lookup s b.pending)) [
  | inl absent ↦ unfold erase in ground (arith, eq_iff s s')
  | inr (d, found) ↦ ground (
    arith,
    eq_iff s s',
    lookup-erase s s' b.pending u,
    is_nil-eq (erase r d),
    lookup-insert s s' (erase r d) b.pending,
  )
]

live-filter :
    (s r s' r' : String) (asks : List (String × String))
    → live s' r' (filter (λ a. not (same s r a)) asks)
      ≡ (if s == s' && r == r' then false else live s' r' asks)
live-filter s r s' r' [] = ground arith
live-filter s r s' r' ((a, b) ∷ asks) = ground (
  arith,
  live-filter s r s' r' asks,
  eq_iff a s,
  eq_iff b r,
  eq_iff a s',
  eq_iff b r',
  eq_iff s s',
  eq_iff r r',
)

UniqueKeys-if :
    (b : Bool) (d d' : Dict String ℕ)
    → UniqueKeys d
    → UniqueKeys d'
    → UniqueKeys (if b then d else d')
UniqueKeys-if true d d' h h' = h
UniqueKeys-if false d d' h h' = h'

pub register-IsTidy :
    (w : World) (s r : String)
    → IsTidy w
    → IsTidy (record { broker = (register s r w.broker).1; asks = (s, r) ∷ w.asks })
register-IsTidy w s r t =
    let requests : Dict String ℕ = insert r w.broker.next (bucket s w.broker) in
    record {
      unique = unfold register in insert-UniqueKeys s _ w.broker.pending t.unique;
      buckets = λ s'. rw (bucket-register w.broker s r s') (
          UniqueKeys-if (s == s') requests (bucket s' w.broker)
            (insert-UniqueKeys r w.broker.next (bucket s w.broker) (t.buckets s)) (t.buckets s'));
      filled = λ s' d h.
          unfold register in
          ground (
            arith,
            lookup-insert s s' requests w.broker.pending,
            t.filled s' d,
            is_nil-eq d,
            insert-ne-nil r w.broker.next (bucket s w.broker),
          );
      parked = λ s' r' h. ground (
        arith,
        bucket-register w.broker s r s',
        lookup-insert r r' w.broker.next (bucket s w.broker),
        eq_iff s s',
        eq_iff r r',
        t.parked s' r',
      );
    }

pub abandon-IsTidy :
    (w : World) (s : String) → IsTidy w → IsTidy (record w { broker = abandon s w.broker })
abandon-IsTidy w s t = record {
  unique = unfold abandon in erase-UniqueKeys s w.broker.pending t.unique;
  buckets = λ s'.
      rw (bucket-abandon w.broker s s' t.unique)
        (UniqueKeys-if (s == s') [] (bucket s' w.broker) tt (t.buckets s'));
  filled = λ s' d h.
      unfold abandon in ground (arith, lookup-erase s s' w.broker.pending t.unique, t.filled s' d);
  parked = λ s' r' h.
      unfold lookup in ground (arith, bucket-abandon w.broker s s' t.unique, t.parked s' r');
}

pub resolve-IsTidy :
    (w : World) (s r : String) (approved : Bool)
    → IsTidy w
    → IsTidy (record w { broker = (resolve s r approved w.broker).1 })
resolve-IsTidy w s r approved t =
    let kept : (resolve s r approved w.broker).1.pending ≡ w.broker.pending =
      unfold resolve in ground arith in
    subst (λ p. IsTidyFor p w.asks) (sym kept) t

UniqueKeys-erased :
    (s r : String) (pending : Pending) (d : Dict String ℕ)
    → UniqueKeys pending
    → UniqueKeys (if is_nil (erase r d) then erase s pending else insert s (erase r d) pending)
UniqueKeys-erased s r pending d u = elim (Bool-cases (is_nil (erase r d))) [
  | inl gone ↦ rw gone (erase-UniqueKeys s pending u)
  | inr left ↦ rw left (insert-UniqueKeys s (erase r d) pending u)
]

discard_unique :
    (b : ConsentBroker) (s r : String) → UniqueKeys b.pending → UniqueKeys (discard s r b).pending
unfolding discard
discard_unique b s r u = elim (Option-cases (lookup s b.pending)) [
  | inl absent ↦
      let kept : (discard s r b).pending ≡ b.pending = ground arith in
      subst (λ p. UniqueKeys p) (sym kept) u
  | inr (d, found) ↦
      let changed : (discard s r b).pending
          ≡ (if is_nil (erase r d) then erase s b.pending else insert s (erase r d) b.pending) =
        ground arith in
      subst (λ p. UniqueKeys p) (sym changed) (UniqueKeys-erased s r b.pending d u)
]

pub discard-filled :
    (b : ConsentBroker) (s r s' : String) (d : Dict String ℕ)
    → UniqueKeys b.pending
    → ((s : String) (d : Dict String ℕ) → lookup s b.pending ≡ some d → is_nil d ≡ false)
    → lookup s' (discard s r b).pending ≡ some d
    → is_nil d ≡ false
unfolding discard
discard-filled b s r s' d u full = elim (Option-cases (lookup s b.pending)) [
  | inl absent ↦ λ h. ground (arith, full s' d)
  | inr (e, found) ↦ λ h.
      ground
        (arith, full s' d, lookup-erase s s' b.pending u, lookup-insert s s' (erase r e) b.pending)
]

pub discard-IsTidy :
    (b : ConsentBroker) (s r : String) (asks : List (String × String))
    → IsTidyFor b.pending asks
    → IsTidyFor (discard s r b).pending (filter (λ a. not (same s r a)) asks)
discard-IsTidy b s r asks t = record {
  unique = discard_unique b s r t.unique;
  buckets = λ s'. rw (bucket-discard b s r s' t.unique) (
      UniqueKeys-if (s == s') (erase r (bucket s b)) (bucket s' b)
        (erase-UniqueKeys r (bucket s b) (t.buckets s)) (t.buckets s'));
  filled = λ s' d h. discard-filled b s r s' d t.unique t.filled h;
  parked = λ s' r' h. rw (live-filter s r s' r' asks) (
      ground (
        arith,
        bucket-discard b s r s' t.unique,
        eq_iff s s',
        eq_iff r r',
        t.parked s' r',
        lookup-erase r r' (bucket s b) (t.buckets s),
      ));
}

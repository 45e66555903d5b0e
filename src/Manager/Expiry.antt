-- ===== src/Manager/Expiry.antt =====
-- Which sessions the time to live reaps.
use wizard_w.Prelude.{
  ℕ, ◌+◌, ◌-◌, ◌≡◌, String, Bool, [], ◌∷◌, none, some, arith, if◌then◌else◌, ltb, length, filter,
  string_eq, Bool-cases, inl, inr,
}
use wizard_w.Prelude.Dict.{Dict, lookup, values, UniqueKeys}
use wizard_w.Prelude.Totals.{lookup-filter, lookup-filter-none}
use wizard_w.Session.{Session}
use wizard_w.Manager.{IsKeyed, reap_expired}
use wizard_w.Manager.Sorted.{find-values, values-UniqueIds, lookup-pop_all, length-pop_all}
use wizard_w.Manager.Capacity.{IsKeyed-UniqueKeys}

filter-IsKeyed :
    {Frame : Type 0} (p : Session Frame → Bool) (d : Dict String (Session Frame))
    → IsKeyed d
    → IsKeyed (filter (λ e. p e.1) d)
filter-IsKeyed p [] v = tt
filter-IsKeyed p ((k, s) ∷ d) v = elim (Bool-cases (p s)) [
  | inl kept ↦ rw kept (v.0, (lookup-filter-none p k d v.1.0, filter-IsKeyed p d v.1.1))
  | inr gone ↦ rw gone (filter-IsKeyed p d v.1.1)
]

-- Reaping removes exactly the sessions that were last seen before the cutoff, leaves every other as
-- it is, and disposes of as many as it removes.
reap_expired_exact :
    {Frame : Type 0} (ttl now : ℕ) (d : Dict String (Session Frame)) (k : String)
    → IsKeyed d
    → (lookup k (reap_expired ttl now d).1 ≡ elim (lookup k d) [
      | none ↦ none
      | some s ↦ if ltb s.last_seen (now - ttl) then none else some s
    ])
      × (length (reap_expired ttl now d).1 + length (reap_expired ttl now d).0 ≡ length d)
unfolding reap_expired
reap_expired_exact {Frame} ttl now d k v =
    let p : Session Frame → Bool = λ s. ltb s.last_seen (now - ttl) in
    let old = filter (λ e. p e.1) d in
    let u : UniqueKeys d = IsKeyed-UniqueKeys d v in
    let keyed : IsKeyed old = filter-IsKeyed p d v in
    (
      ground (
        arith,
        lookup-pop_all k (values old) d u,
        find-values k old keyed,
        lookup-filter p k d u,
      ),
      length-pop_all (values old) d u (values-UniqueIds old keyed)
          (λ j s found gone. ground (arith, find-values j old keyed, lookup-filter p j d u)),
    )

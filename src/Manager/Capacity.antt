-- ===== src/Manager/Capacity.antt =====
-- The cap on active sessions, and which sessions it evicts.
use wizard_w.Prelude.{
  ℕ, zero, suc, ◌+◌, ◌-◌, ◌≤◌, ◌<◌, ◌≡◌, refl, ap, ◌∙◌, String, List, [], ◌∷◌, ◌++◌, none, some,
  arith, length, take, length-take, length-append, ◌==◌, string_eq, Bool-cases, inl, inr,
}
use Prim.Native.Nat.{min}
use text.Mathlib.TextEquality.{eq_iff}
use wizard_w.Prelude.Dict.{Dict, lookup, insert, values, UniqueKeys, lookup-insert}
use wizard_w.DataMode.{DataPolicy}
use wizard_w.Session.{Session, new_session}
use wizard_w.Manager.{place, by_last_seen, IsKeyed, enforce_capacity, create}
use wizard_w.Manager.Sorted.{
  find, by_last_seen-IsOrderOf, length-by_last_seen, find-take-drop, take-before-drop,
  take-UniqueIds, lookup-pop_all, length-pop_all,
}

module _ {Frame : Type 0} where
  pub IsKeyed-UniqueKeys : (d : Dict String (Session Frame)) → IsKeyed d → UniqueKeys d
  IsKeyed-UniqueKeys [] v = tt
  IsKeyed-UniqueKeys ((k, s) ∷ d) v = (v.1.0, IsKeyed-UniqueKeys d v.1.1)

  -- A new id goes to the end.
  insert-fresh :
      (k : String) (s : Session Frame) (d : Dict String (Session Frame))
      → lookup k d ≡ none
      → insert k s d ≡ d ++ ((k, s) ∷ [])
  unfolding lookup insert
  insert-fresh k s [] h = refl
  insert-fresh k s ((j, t) ∷ d) h = ground (arith, insert-fresh k s d)

  insert-IsKeyed :
      (k : String) (s : Session Frame) (d : Dict String (Session Frame))
      → s.id ≡ k
      → IsKeyed d
      → IsKeyed (insert k s d)
  unfolding lookup insert
  insert-IsKeyed k s [] e v = (e, (refl, tt))
  insert-IsKeyed k s ((j, t) ∷ d) e v = elim (Bool-cases (j == k)) [
    | inl same ↦ rw same (ground (arith, eq_iff j k), v.1)
    | inr other ↦ rw other (
      v.0,
      (
        ground (arith, lookup-insert k j s d, eq_iff k j, eq_iff j k, v.1.0),
        insert-IsKeyed k s d e v.1.1,
      ),
    )
  ]

  place-last :
      (s x : Session Frame) (ss : List (Session Frame))
      → s.last_seen ≤ x.last_seen
      → place s (ss ++ (x ∷ [])) ≡ place s ss ++ (x ∷ [])
  unfolding place
  place-last s x [] h = ground arith
  place-last s x (t ∷ ts) h = ground (arith, place-last s x ts h)

  -- Every session of a dictionary was last seen by a time.
  abbrev pub SeenBy : ℕ → Dict String (Session Frame) → Type 0
  SeenBy now [] = Unit
  SeenBy now ((k, s) ∷ d) = (s.last_seen ≤ now) × SeenBy now d

  by_last_seen-last :
      (x : Session Frame) (k : String) (d : Dict String (Session Frame))
      → SeenBy x.last_seen d
      → by_last_seen (values (d ++ ((k, x) ∷ []))) ≡ by_last_seen (values d) ++ (x ∷ [])
  unfolding by_last_seen place
  by_last_seen-last x k [] v = refl
  by_last_seen-last x k ((j, s) ∷ d) v =
      ap (place s) (by_last_seen-last x k d v.1) ∙ place-last s x (by_last_seen (values d)) v.0

  take-append :
      (n : ℕ) (ss ts : List (Session Frame)) → n ≤ length ss → take n (ss ++ ts) ≡ take n ss
  take-append zero ss ts h = refl
  take-append (suc n) [] ts h = ground arith
  take-append (suc n) (s ∷ ss) ts h = ap (λ r. s ∷ r) (take-append n ss ts (omega arith))

  -- Eviction keeps as many sessions as fit.
  enforce_capacity-length :
      (max_active : ℕ) (d : Dict String (Session Frame))
      → IsKeyed d
      → length (enforce_capacity max_active d).1 ≡ min max_active (length d)
  unfolding enforce_capacity
  enforce_capacity-length max_active d v =
      let n = length d - max_active in
      let ss = by_last_seen (values d) in
      let o = by_last_seen-IsOrderOf d v in
      ground (
        arith,
        length-take n ss,
        length-by_last_seen d,
        length-pop_all (take n ss) d (IsKeyed-UniqueKeys d v) (take-UniqueIds n ss o.unique)
            (λ k s found gone. ground (arith, find-take-drop k n ss, o.same k)),
      )

-- After a session is created under a fresh id there are as many as before and the new one, or `SESSION_MAX_ACTIVE`
-- where that is less: the cap holds, and no more sessions are evicted than it takes.
create-length :
    {Frame : Type 0} (max_active : ℕ) (id : String) (policy : DataPolicy) (now : ℕ)
    (d : Dict String (Session Frame))
    → IsKeyed d
    → lookup id d ≡ none
    → length (create max_active id policy now d).1 ≡ min max_active (length d + 1)
unfolding create
create-length {Frame} max_active id policy now d v fresh =
    let s : Session Frame = new_session id policy now in
    ground (
      arith,
      enforce_capacity-length max_active (insert id s d) (insert-IsKeyed id s d refl v),
      ap length (insert-fresh id s d fresh),
      length-append d ((id, s) ∷ []),
    )

-- A session that a creation evicts was last seen no later than any that it leaves.
pub create_evicts_least_recent :
    {Frame : Type 0} (max_active : ℕ) (id : String) (policy : DataPolicy) (now : ℕ)
    (d : Dict String (Session Frame)) (k j : String) (s t : Session Frame)
    → IsKeyed d
    → find k (create max_active id policy now d).0 ≡ some s
    → lookup j (create max_active id policy now d).1 ≡ some t
    → s.last_seen ≤ t.last_seen
unfolding create enforce_capacity
create_evicts_least_recent max_active id policy now d k j s t v evicted left =
    let d' = insert id (new_session id policy now) d in
    let keyed : IsKeyed d' = insert-IsKeyed id (new_session id policy now) d refl v in
    let o = by_last_seen-IsOrderOf d' keyed in
    let n = length d' - max_active in
    let ss = by_last_seen (values d') in
    take-before-drop n ss k j s t o.sorted o.unique evicted (
      ground (
        arith,
        lookup-pop_all j (take n ss) d' (IsKeyed-UniqueKeys d' keyed),
        find-take-drop j n ss,
        o.same j,
        left,
      ))

-- A new session is never itself evicted, provided that the cap is at least 1 and the clock does not
-- run backwards.
created_session_survives :
    {Frame : Type 0} (max_active : ℕ) (id : String) (policy : DataPolicy) (now : ℕ)
    (d : Dict String (Session Frame))
    → IsKeyed d
    → lookup id d ≡ none
    → SeenBy now d
    → 0 < max_active
    → lookup id (create max_active id policy now d).1 ≡ some (new_session id policy now)
unfolding create enforce_capacity
created_session_survives {Frame} max_active id policy now d v fresh seen room =
    let s : Session Frame = new_session id policy now in
    let d' = insert id s d in
    let keyed : IsKeyed d' = insert-IsKeyed id s d refl v in
    let n = length d' - max_active in
    let ss = by_last_seen (values d) in
    let order : by_last_seen (values d') ≡ ss ++ (s ∷ []) =
      ap (λ e. by_last_seen (values e)) (insert-fresh id s d fresh)
      ∙ by_last_seen-last s id d seen in
    let victims : take n (by_last_seen (values d')) ≡ take n ss =
      ap (take n) order
      ∙ take-append n ss (s ∷ []) (
          ground (
            arith,
            ap length (insert-fresh id s d fresh),
            length-append d ((id, s) ∷ []),
            length-by_last_seen d,
          )) in
    let o = by_last_seen-IsOrderOf d v in
    lookup-pop_all id (take n (by_last_seen (values d'))) d' (IsKeyed-UniqueKeys d' keyed)
    ∙ ground (
      arith,
      ap (find id) victims,
      find-take-drop id n ss,
      o.same id,
      fresh,
      lookup-insert id id s d,
      eq_iff id id,
    )

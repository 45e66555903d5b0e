-- ===== src/Skills/Promotion/Once.antt =====
-- How often an analysis is offered, over any history of calls.
use wizard_w.Prelude.{
  ℕ, ◌≡◌, ◌<◌, refl, true, false, ◌||◌, not, List, [], ◌∷◌, ◌++◌, Option, none, some, arith,
  contains, contains-append, ◌==◌, nat_eq, Bool-cases, beq_self, inl, inr, ap,
}
use wizard_w.Prelude.Text.{Text, text_eq, strip}
use wizard_w.Skills.Candidates.{
  Row, Table, empty_table, is_some, find_row, settled_as, settle_skill_candidate,
}
use wizard_w.Skills.Promotion.{
  PromotionSettings, Ranking, Candidate, Match, unmatched, matched, failed, match_row, Turn,
  record_new, record_again, record_turn, Call, recording, settling, perform, offer_ids, offers,
  after,
}
use wizard_w.Skills.Promotion.Rows.{
  is_spent, map_row, find_row-update, update-UniqueIds, update-fresh, update-spent,
}
use wizard_w.Skills.Promotion.Steps.{
  IsValid, Spent, match_row-found, record_new-IsValid, record_new-Spent, record_new-offer,
  record_again-IsValid, record_again-Spent, record_again-offer,
}

pub settled_as-spent :
    (n : ℕ) (promoted_to : Option Text) (r : Row)
    → is_spent n (some r) ≡ true
    → is_spent n (some (settled_as promoted_to r)) ≡ true
unfolding settled_as
settled_as-spent n none r h = refl
settled_as-spent n (some []) r h = refl
settled_as-spent n (some (c ∷ name)) r h = ground arith

pub settled_as-id : (promoted_to : Option Text) (r : Row) → (settled_as promoted_to r).id ≡ r.id
unfolding settled_as
settled_as-id none r = refl
settled_as-id (some []) r = refl
settled_as-id (some (c ∷ name)) r = refl

-- What one call keeps: the table well formed, and every spent id spent. What it offers was not spent
-- before, and is afterwards.
pub record Keeps (s : PromotionSettings) (t : Table) (made : Option Candidate) (t' : Table)
    : Type 0 where
  pub valid : IsValid t'
  pub spent : (id : ℕ) → Spent s id t → Spent s id t'
  pub offer :
      (c : Candidate)
      → made ≡ some c
      → (is_spent s.threshold (find_row c.id t.rows) ≡ false) × Spent s c.id t'

unchanged-Keeps : (s : PromotionSettings) (t : Table) → IsValid t → Keeps s t none t
unchanged-Keeps s t v = record {
  valid = v;
  spent = λ id h. h;
  offer = λ c e. absurd (ground arith);
}

abbrev pub Distinct : List ℕ → Type 0
Distinct [] = Unit
Distinct (id ∷ ids) = (contains id ids ≡ false) × Distinct ids

module _ (s : PromotionSettings) (rank : Ranking) (counts : 0 < s.threshold) where
  record_turn-Keeps :
      (turn : Turn) (t : Table)
      → IsValid t
      → Keeps s t (record_turn s rank turn t).0 (record_turn s rank turn t).1
  unfolding record_turn
  record_turn-Keeps turn t v = elim (Bool-cases (not s.enabled || strip turn.instruction == [])) [
    | inl off ↦ rw off (unchanged-Keeps s t v)
    | inr on ↦
        rw on (by_match (match_row s rank turn.reads turn.kind (strip turn.instruction) t) refl)
  ]
    where
      by_match :
          (m : Match)
          → match_row s rank turn.reads turn.kind (strip turn.instruction) t ≡ m
          → let r = elim m as (λ x. Option Candidate × Table) [
            | unmatched ↦ record_new s turn t
            | matched existing ↦ record_again s turn existing t
            | failed ↦ (none, t)
          ] in
            Keeps s t r.0 r.1
      by_match unmatched e = record {
        valid = record_new-IsValid s counts turn t v;
        spent = record_new-Spent s counts turn t v;
        offer = record_new-offer s counts turn t v;
      }
      by_match (matched existing) e =
          let found =
            match_row-found s rank turn.reads turn.kind (strip turn.instruction) t existing v e in
          record {
            valid = record_again-IsValid s counts turn t v existing found;
            spent = record_again-Spent s counts turn t v existing found;
            offer = record_again-offer s counts turn t v existing found;
          }
      by_match failed e = unchanged-Keeps s t v

  pub perform-Keeps :
      (call : Call) (t : Table)
      → IsValid t
      → Keeps s t (perform s rank call t).0 (perform s rank call t).1
  unfolding perform
  perform-Keeps (recording turn) t v = record_turn-Keeps turn t v
  perform-Keeps (settling id promoted_to true) t v = record {
    valid = record {
      unique =
          update-UniqueIds (settled_as promoted_to) (settled_as-id promoted_to) id t.rows v.unique;
      fresh =
          update-fresh (settled_as promoted_to) (settled_as-id promoted_to) id t.next_id t.rows
            v.fresh;
      positive = v.positive;
    };
    spent = λ j h.
        update-spent (settled_as promoted_to) (settled_as-id promoted_to) s.threshold id j t.rows
          (settled_as-spent s.threshold promoted_to) h;
    offer = λ c e. absurd (ground arith);
  }
  perform-Keeps (settling id promoted_to false) t v = unchanged-Keeps s t v

  offer-absent :
      (id : ℕ) (made : Option Candidate) (t t' : Table)
      → Keeps s t made t'
      → Spent s id t
      → contains id (offer_ids made) ≡ false
  offer-absent id none t t' k h = refl
  offer-absent id (some c) t t' k h = ground (
    arith,
    (k.offer c refl).0,
    nat_eq.decides c.id id,
    λ (e : c.id ≡ id). ap (λ j. is_spent s.threshold (find_row j t.rows)) e,
  )

  offers-absent :
      (calls : List Call) (id : ℕ) (t : Table)
      → IsValid t
      → Spent s id t
      → contains id (offers s rank calls t) ≡ false
  unfolding offers
  offers-absent [] id t v h = refl
  offers-absent (call ∷ calls) id t v h =
      let (made, t') = perform s rank call t in
      let k = perform-Keeps call t v in
      ground (
        arith,
        contains-append id (offer_ids made) (offers s rank calls t'),
        offer-absent id made t t' k h,
        offers-absent calls id t' k.valid (k.spent id h),
      )

  offers-Distinct_from :
      (calls : List Call) (t : Table) → IsValid t → Distinct (offers s rank calls t)
  unfolding offers
  offers-Distinct_from [] t v = tt
  offers-Distinct_from (call ∷ calls) t v =
      let (made, t') = perform s rank call t in
      let k = perform-Keeps call t v in
      after_offer made (offers s rank calls t')
        (λ c e. offers-absent calls c.id t' k.valid (k.offer c e).1)
        (offers-Distinct_from calls t' k.valid)
    where
      after_offer :
          (made : Option Candidate) (ids : List ℕ)
          → ((c : Candidate) → made ≡ some c → contains c.id ids ≡ false)
          → Distinct ids
          → Distinct (offer_ids made ++ ids)
      after_offer none ids h d = d
      after_offer (some c) ids h d = (h c refl, d)

  pub after-IsValid : (calls : List Call) (t : Table) → IsValid t → IsValid (after s rank calls t)
  unfolding after
  after-IsValid [] t v = v
  after-IsValid (call ∷ calls) t v =
      after-IsValid calls (perform s rank call t).1 (perform-Keeps call t v).valid

pub empty-IsValid : IsValid empty_table
empty-IsValid = record { unique = tt; fresh = refl; positive = omega arith }

-- No id is offered twice, with any ranking, and with calls that do not reach the database.
pub offers-Distinct :
    (s : PromotionSettings) (rank : Ranking) (calls : List Call)
    → 0 < s.threshold
    → Distinct (offers s rank calls empty_table)
offers-Distinct s rank calls counts =
    offers-Distinct_from s rank counts calls empty_table empty-IsValid

pub settled-spent :
    (n : ℕ) (promoted_to : Option Text) (o : Option Row)
    → is_some o ≡ true
    → is_spent n (map_row (settled_as promoted_to) o) ≡ true
unfolding settled_as
settled-spent n promoted_to none h = absurd (ground arith)
settled-spent n none (some r) h = refl
settled-spent n (some []) (some r) h = refl
settled-spent n (some (c ∷ name)) (some r) h = ground arith

-- A row that the user dismissed or promoted is not offered by any later history.
pub settled_is_final :
    (s : PromotionSettings) (rank : Ranking) (earlier later : List Call) (id : ℕ)
    (promoted_to : Option Text)
    → 0 < s.threshold
    → (settle_skill_candidate true id promoted_to (after s rank earlier empty_table)).0 ≡ true
    → contains id (
        offers s rank later
          (settle_skill_candidate true id promoted_to (after s rank earlier empty_table)).1)
      ≡ false
unfolding settle_skill_candidate
settled_is_final s rank earlier later id promoted_to counts found =
    let t = after s rank earlier empty_table in
    let v = after-IsValid s rank counts earlier empty_table empty-IsValid in
    let k = perform-Keeps s rank counts (settling id promoted_to true) t v in
    offers-absent s rank counts later id (settle_skill_candidate true id promoted_to t).1
      (unfold perform in k.valid)
      (rw
        (
          find_row-update (settled_as promoted_to) (settled_as-id promoted_to) id id t.rows,
          beq_self id,
        )
        (settled-spent s.threshold promoted_to (find_row id t.rows) found))

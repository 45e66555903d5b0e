-- ===== src/Skills/Promotion/Steps.antt =====
-- One call on the table: what it keeps, and what it takes to offer a row.
use wizard_w.Prelude.{
  ℕ, ◌+◌, ◌≡◌, ◌≢◌, ◌<◌, refl, Bool, true, false, List, [], ◌∷◌, ◌++◌, Option, none, some, arith,
  if◌then◌else◌, all, ltb, leb, ◌==◌, nat_eq, map, Bool-cases, beq_self, inl, inr, ◌∙◌,
}
use wizard_w.Prelude.Text.{Text, text_eq}
use wizard_w.Skills.Candidates.{
  Kind, Row, Table, is_settled, get_skill_candidates, bumped, update_row, find_row,
}
use wizard_w.Skills.Promotion.{
  PromotionSettings, Ranking, Candidate, Match, unmatched, matched, nth, match_row, match_entries,
  Turn, offered, record_new, record_again,
}
use wizard_w.Skills.Promotion.Rows.{
  UniqueIds, IsFresh, is_spent, find_row-update, update-UniqueIds, update-fresh, update-spent, Each,
  IsFound, Each-filter, Each-newest_first, Each-nth, Each-IsFound,
}

pub record IsValid (t : Table) : Type 0 where
  pub unique : UniqueIds t.rows
  pub fresh : IsFresh t
  pub positive : 0 < t.next_id

abbrev pub Spent : PromotionSettings → ℕ → Table → Type 0
Spent s id t = is_spent s.threshold (find_row id t.rows) ≡ true

match_entries-Each :
    (P : Row → Type 0) (s : PromotionSettings) (rank : Ranking) (instruction : Text)
    (entries : List Row) (r : Row)
    → Each P entries
    → match_entries s rank instruction entries ≡ matched r
    → P r
unfolding match_entries
match_entries-Each P s rank instruction [] r h e = absurd (ground arith)
match_entries-Each P s rank instruction (q ∷ entries) r h e =
    chosen (rank instruction (map (λ x. x.instruction) (q ∷ entries))) e
  where
    chosen :
        (best : Option (ℕ × ℕ))
        → elim best as (λ b. Match) [
          | none ↦ unmatched
          | some (score, index) ↦
              if ltb score s.min_similarity then unmatched else nth index (q ∷ entries)
        ]
          ≡ matched r
        → P r
    chosen none d = absurd (ground arith)
    chosen (some (score, index)) d = elim (Bool-cases (ltb score s.min_similarity)) [
      | inl low ↦ absurd (ground arith)
      | inr high ↦ Each-nth P index (q ∷ entries) r h (ground arith)
    ]

candidates-Each :
    (P : Row → Type 0) (reads : Bool) (kind : Option Kind) (settled : Bool) (t : Table)
    → Each P t.rows
    → Each P (get_skill_candidates reads kind settled t)
unfolding get_skill_candidates
candidates-Each P false kind settled t h = tt
candidates-Each P true kind settled t h = Each-newest_first P _ (Each-filter P _ t.rows h)

-- An entry that a lookup matched is the row of its id.
pub match_row-found :
    (s : PromotionSettings) (rank : Ranking) (reads : Bool) (kind : Kind) (instruction : Text)
    (t : Table) (r : Row)
    → IsValid t
    → match_row s rank reads kind instruction t ≡ matched r
    → find_row r.id t.rows ≡ some r
match_row-found s rank reads kind instruction t r v e =
    match_entries-Each (IsFound t.rows) s rank instruction
      (get_skill_candidates reads (some kind) true t) r
      (candidates-Each (IsFound t.rows) reads (some kind) true t (Each-IsFound t.rows v.unique))
      (unfold match_row in e)

find_row-snoc :
    (id : ℕ) (rows : List Row) (r : Row)
    → find_row id (rows ++ (r ∷ []))
      ≡ elim (find_row id rows) [ some q ↦ some q | none ↦ if r.id == id then some r else none ]
unfolding find_row
find_row-snoc id [] r = refl
find_row-snoc id (q ∷ rows) r = ground (arith, find_row-snoc id rows r)

fresh-absent :
    (n : ℕ) (rows : List Row) → all (λ (r : Row). ltb r.id n) rows ≡ true → find_row n rows ≡ none
unfolding find_row
fresh-absent n [] h = refl
fresh-absent n (r ∷ rows) h = ground (arith, fresh-absent n rows)

snoc-UniqueIds :
    (rows : List Row) (r : Row)
    → UniqueIds rows
    → find_row r.id rows ≡ none
    → UniqueIds (rows ++ (r ∷ []))
snoc-UniqueIds [] r u absent = (absent, tt)
snoc-UniqueIds (q ∷ rows) r u absent = (
  unfold find_row in
      ground (arith, find_row-snoc q.id rows r, nat_eq.decides q.id r.id, nat_eq.decides r.id q.id),
  snoc-UniqueIds rows r u.1 (unfold find_row in ground arith),
)

snoc-fresh :
    (n : ℕ) (rows : List Row) (r : Row)
    → all (λ (q : Row). ltb q.id n) rows ≡ true
    → r.id ≡ n
    → all (λ (q : Row). ltb q.id (n + 1)) (rows ++ (r ∷ [])) ≡ true
snoc-fresh n [] r h e = ground arith
snoc-fresh n (q ∷ rows) r h e = ground (arith, snoc-fresh n rows r)

snoc-spent :
    (n id : ℕ) (rows : List Row) (r : Row)
    → is_spent n (find_row id rows) ≡ true
    → is_spent n (find_row id (rows ++ (r ∷ []))) ≡ true
snoc-spent n id rows r h = rw (find_row-snoc id rows r) (kept (find_row id rows) h)
  where
    kept :
        (o : Option Row)
        → is_spent n o ≡ true
        → is_spent n (elim o as (λ x. Option Row) [
          | some q ↦ some q
          | none ↦ if r.id == id then some r else none
        ])
          ≡ true
    kept none k = absurd (ground arith)
    kept (some q) k = k

snoc-found :
    (rows : List Row) (r : Row)
    → find_row r.id rows ≡ none
    → find_row r.id (rows ++ (r ∷ [])) ≡ some r
snoc-found rows r h = rw (find_row-snoc r.id rows r, h) (ground (arith, nat_eq.decides r.id r.id))

snoc-spent_new :
    (n : ℕ) (rows : List Row) (r : Row)
    → find_row r.id rows ≡ none
    → leb n r.occurrences ≡ true
    → is_spent n (find_row r.id (rows ++ (r ∷ []))) ≡ true
snoc-spent_new n rows r h k = rw (snoc-found rows r h) (ground arith)

offered-eq :
    (s : PromotionSettings) (turn : Turn) (id n : ℕ) (c : Candidate)
    → offered s turn id n ≡ some c
    → (c.id ≡ id) × (n ≡ s.threshold) × (id ≢ 0)
unfolding offered
offered-eq s turn id n c e = ground (arith, nat_eq.decides n s.threshold, nat_eq.decides id 0)

unsettled-offer :
    (s : PromotionSettings) (turn : Turn) (r : Row) (c : Candidate) {o : Option Candidate}
    → (if is_settled r then none else o) ≡ some c
    → (is_settled r ≡ false) × (o ≡ some c)
unsettled-offer s turn r c h = ground arith

pub bumped-spent :
    (n : ℕ) (plan code : Text) (now : ℕ) (r : Row)
    → is_spent n (some r) ≡ true
    → is_spent n (some (bumped plan code now r)) ≡ true
unfolding bumped
bumped-spent n plan code now r h = ground arith

-- The calls of the table keep it well formed, and keep what is spent.
module _ (s : PromotionSettings) (counts : 0 < s.threshold) (turn : Turn) (t : Table)
    (v : IsValid t) where
  pub record_new-IsValid : IsValid (record_new s turn t).1
  unfolding record_new
  record_new-IsValid = elim (Bool-cases turn.writes) [
    | inl good ↦ rw good (record {
      unique = snoc-UniqueIds t.rows _ v.unique (fresh-absent t.next_id t.rows v.fresh);
      fresh = snoc-fresh t.next_id t.rows _ v.fresh refl;
      positive = omega arith;
    })
    | inr bad ↦ rw bad v
  ]

  pub record_new-Spent : (id : ℕ) → Spent s id t → Spent s id (record_new s turn t).1
  unfolding record_new
  record_new-Spent id h = elim (Bool-cases turn.writes) [
    | inl good ↦ rw good (snoc-spent s.threshold id t.rows _ h)
    | inr bad ↦ rw bad h
  ]

  pub record_new-offer :
      (c : Candidate)
      → (record_new s turn t).0 ≡ some c
      → (is_spent s.threshold (find_row c.id t.rows) ≡ false) × Spent s c.id (record_new s turn t).1
  unfolding record_new
  record_new-offer c e = elim (Bool-cases turn.writes) [
    | inl good ↦
        let (same, reached, nonzero) = offered-eq s turn t.next_id 1 c (rw good at e) in
        let absent = fresh-absent t.next_id t.rows v.fresh in
        rw good
          (rw same (rw absent refl, snoc-spent_new s.threshold t.rows _ absent (ground arith)))
    | inr bad ↦
        let (same, reached, nonzero) = offered-eq s turn 0 1 c (rw bad at e) in
        absurd (nonzero refl)
  ]

  module _ (existing : Row) (found : find_row existing.id t.rows ≡ some existing) where
    abbrev bump : Row → Row
    unfolding bumped
    bump = bumped turn.plan turn.code_text turn.now

    pub record_again-IsValid : IsValid (record_again s turn existing t).1
    unfolding record_again
    record_again-IsValid = elim (Bool-cases turn.writes) [
      | inl good ↦ rw good (record {
        unique = update-UniqueIds bump (λ r. refl) existing.id t.rows v.unique;
        fresh = update-fresh bump (λ r. refl) existing.id t.next_id t.rows v.fresh;
        positive = v.positive;
      })
      | inr bad ↦ rw bad v
    ]

    pub record_again-Spent : (id : ℕ) → Spent s id t → Spent s id (record_again s turn existing t).1
    unfolding record_again
    record_again-Spent id h = elim (Bool-cases turn.writes) [
      | inl good ↦ rw good (
          update-spent bump (λ r. refl) s.threshold existing.id id t.rows
            (bumped-spent s.threshold turn.plan turn.code_text turn.now) h)
      | inr bad ↦ rw bad h
    ]

    pub record_again-offer :
        (c : Candidate)
        → (record_again s turn existing t).0 ≡ some c
        → (is_spent s.threshold (find_row c.id t.rows) ≡ false)
          × Spent s c.id (record_again s turn existing t).1
    unfolding record_again
    record_again-offer c e = elim (Bool-cases turn.writes) [
      | inl good ↦
          let counted = find_row-update bump (λ r. refl) existing.id existing.id t.rows in
          let after_bump : find_row existing.id (update_row existing.id bump t.rows)
              ≡ some (bump existing) =
            counted ∙ rw (beq_self existing.id, found) refl in
          let made : (if is_settled existing
                then none
                else offered s turn existing.id (existing.occurrences + 1))
              ≡ some c =
            unfold bumped in (rw after_bump at (rw good at e)) in
          let (unsettled, kept) = unsettled-offer s turn existing c made in
          let (same, reached, nonzero) =
            offered-eq s turn existing.id (existing.occurrences + 1) c kept in
          rw good (rw same (rw found (ground arith), rw after_bump (unfold bumped in ground arith)))
      | inr bad ↦
          let (unsettled, kept) = unsettled-offer s turn existing c (rw bad at e) in
          let (same, reached, nonzero) = offered-eq s turn existing.id 0 c kept in
          absurd (omega (arith, reached))
    ]

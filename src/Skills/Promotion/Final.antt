-- ===== src/Skills/Promotion/Final.antt =====
-- How often an analysis is offered: its kind and its instruction, whatever the row.
use wizard_w.Prelude.{
  ℕ, ◌≡◌, ◌≢◌, ◌<◌, refl, sym, ap, ◌∙◌, Bool, true, false, ◌&&◌, ◌||◌, not, List, [], ◌∷◌, ◌++◌,
  Option, none, some, arith, any, all, contains, ◌==◌, nat_eq, Bool-cases, inl, inr,
}
use wizard_w.Prelude.Text.{Text, text_eq, strip}
use wizard_w.Prelude.Strip.{strip-strip}
use wizard_w.Skills.Candidates.{Kind, Row, Table, is_some, bumped, find_row, settled_as}
use wizard_w.Skills.Promotion.{
  PromotionSettings, Ranking, Candidate, Match, unmatched, matched, failed, match_row, Turn,
  record_new, record_again, record_turn, Call, recording, settling, perform, offer_ids, offers,
  after,
}
use wizard_w.Skills.Promotion.Rows.{is_spent}
use wizard_w.Skills.Promotion.Steps.{IsValid, Spent}
use wizard_w.Skills.Promotion.Analyses.{
  is_of, is_of-sym, is_row_of, UniqueAnalyses, same_rows, same_analysis, Recognises,
  unmatched-absent, snoc-UniqueAnalyses, update-UniqueAnalyses,
}
use wizard_w.Skills.Promotion.Once.{perform-Keeps}

-- Whether the lookup of entries reached the database in each recorded turn.
abbrev pub all_read : List Call → Bool
all_read [] = true
all_read (recording turn ∷ calls) = turn.reads && all_read calls
all_read (settling id promoted_to writes ∷ calls) = all_read calls

pub settled_as-kind :
    (promoted_to : Option Text) (r : Row) → (settled_as promoted_to r).kind ≡ r.kind
unfolding settled_as
settled_as-kind none r = refl
settled_as-kind (some []) r = refl
settled_as-kind (some (c ∷ name)) r = refl

pub settled_as-instruction :
    (promoted_to : Option Text) (r : Row) → (settled_as promoted_to r).instruction ≡ r.instruction
unfolding settled_as
settled_as-instruction none r = refl
settled_as-instruction (some []) r = refl
settled_as-instruction (some (c ∷ name)) r = refl

record_new-UniqueAnalyses :
    (s : PromotionSettings) (turn : Turn) (t : Table)
    → UniqueAnalyses t.rows
    → any (is_of turn.kind (strip turn.instruction)) t.rows ≡ false
    → UniqueAnalyses (record_new s turn t).1.rows
unfolding record_new
record_new-UniqueAnalyses s turn t u absent = elim (Bool-cases turn.writes) [
  | inl good ↦ rw good (
      snoc-UniqueAnalyses t.rows _ u
        (ap (λ i. any (is_of turn.kind i) t.rows) (strip-strip turn.instruction) ∙ absent))
  | inr bad ↦ rw bad u
]

record_again-UniqueAnalyses :
    (s : PromotionSettings) (turn : Turn) (existing : Row) (t : Table)
    → UniqueAnalyses t.rows
    → UniqueAnalyses (record_again s turn existing t).1.rows
unfolding record_again
record_again-UniqueAnalyses s turn existing t u = elim (Bool-cases turn.writes) [
  | inl good ↦ rw good (
      unfold bumped in
      update-UniqueAnalyses (bumped turn.plan turn.code_text turn.now) (λ r. refl) (λ r. refl)
        existing.id t.rows u)
  | inr bad ↦ rw bad u
]

absent-row :
    (kind : Kind) (i : Text) (j : ℕ) (rows : List Row)
    → any (is_of kind i) rows ≡ false
    → is_row_of kind i (find_row j rows) ≡ false
unfolding find_row
absent-row kind i j [] h = refl
absent-row kind i j (r ∷ rows) h = elim (Bool-cases (r.id == j)) [
  | inl here ↦ rw here (ground (arith, h))
  | inr other ↦ rw other (absent-row kind i j rows (ground (arith, h)))
]

same_rows-last :
    (o : Option Row) (r : Row) → same_rows o (some r) ≡ is_row_of r.kind r.instruction o
same_rows-last none r = refl
same_rows-last (some q) r = is_of-sym q r

-- Ids whose rows are of one analysis are equal.
same_analysis-eq :
    (rows : List Row) (id j : ℕ)
    → UniqueAnalyses rows
    → same_rows (find_row id rows) (find_row j rows) ≡ true
    → id ≡ j
unfolding find_row
same_analysis-eq [] id j u e = absurd (ground (arith, e))
same_analysis-eq (r ∷ rows) id j u e = elim (Bool-cases (r.id == id)) [
  | inl first ↦ elim (Bool-cases (r.id == j)) [
    | inl second ↦ sym ((nat_eq.decides r.id id).0 first) ∙ (nat_eq.decides r.id j).0 second
    | inr later ↦
        absurd (ground (arith, absent-row r.kind r.instruction j rows u.0, rw (first, later) at e))
  ]
  | inr elsewhere ↦ elim (Bool-cases (r.id == j)) [
    | inl second ↦ absurd (
        ground (
          arith,
          absent-row r.kind r.instruction id rows u.0,
          same_rows-last (find_row id rows) r,
          rw (elsewhere, second) at e,
        ))
    | inr later ↦ same_analysis-eq rows id j u.1 (rw (elsewhere, later) at e)
  ]
]

-- No two of these ids have rows of one analysis.
abbrev pub DistinctAnalyses : Table → List ℕ → Type 0
DistinctAnalyses t [] = Unit
DistinctAnalyses t (id ∷ ids) = (any (same_analysis t id) ids ≡ false) × DistinctAnalyses t ids

pub apart :
    (t : Table) (id : ℕ) (ids : List ℕ)
    → UniqueAnalyses t.rows
    → contains id ids ≡ false
    → any (same_analysis t id) ids ≡ false
apart t id [] u h = refl
apart t id (j ∷ ids) u h = elim (Bool-cases (same_analysis t id j)) [
  | inl same ↦
      let equal = same_analysis-eq t.rows id j u same in
      absurd (ground (arith, h, nat_eq.decides j id, equal))
  | inr other ↦ rw other (apart t id ids u (ground (arith, h)))
]

abbrev pub has_row : Table → ℕ → Bool
has_row t id = is_some (find_row id t.rows)

pub spent-is_some : (n : ℕ) (o : Option Row) → is_spent n o ≡ true → is_some o ≡ true
spent-is_some n none h = absurd (ground (arith, h))
spent-is_some n (some r) h = refl

module _ (s : PromotionSettings) (rank : Ranking) (counts : 0 < s.threshold) where
  pub after-Spent :
      (calls : List Call) (id : ℕ) (t : Table)
      → IsValid t
      → Spent s id t
      → Spent s id (after s rank calls t)
  unfolding after
  after-Spent [] id t v h = h
  after-Spent (call ∷ calls) id t v h =
      let k = perform-Keeps s rank counts call t v in
      after-Spent calls id (perform s rank call t).1 k.valid (k.spent id h)

  pub offers-have_rows :
      (calls : List Call) (t : Table)
      → IsValid t
      → all (has_row (after s rank calls t)) (offers s rank calls t) ≡ true
  unfolding after offers
  offers-have_rows [] t v = refl
  offers-have_rows (call ∷ calls) t v =
      let t' = (perform s rank call t).1 in
      let k = perform-Keeps s rank counts call t v in
      with_offer (perform s rank call t).0 (offers s rank calls t')
        (λ c e. spent-is_some s.threshold _ (after-Spent calls c.id t' k.valid (k.offer c e).1))
        (offers-have_rows calls t' k.valid)
    where
      final : Table
      final = after s rank calls (perform s rank call t).1

      with_offer :
          (made : Option Candidate) (ids : List ℕ)
          → ((c : Candidate) → made ≡ some c → has_row final c.id ≡ true)
          → all (has_row final) ids ≡ true
          → all (has_row final) (offer_ids made ++ ids) ≡ true
      with_offer none ids f h = h
      with_offer (some c) ids f h = rw (f c refl, h) refl

  module _
      (recognises : (query : Text) (texts : List Text)
        → query ≢ []
        → contains query texts ≡ true
        → Recognises s rank query texts) where
    turn-UniqueAnalyses :
        (turn : Turn) (t : Table)
        → turn.reads ≡ true
        → UniqueAnalyses t.rows
        → UniqueAnalyses (record_turn s rank turn t).1.rows
    unfolding record_turn
    turn-UniqueAnalyses turn t reads u =
        elim (Bool-cases (not s.enabled || strip turn.instruction == [])) [
          | inl off ↦ rw off u
          | inr on ↦ rw on (
              by_match (ground (arith, on, text_eq.decides (strip turn.instruction) []))
                (match_row s rank turn.reads turn.kind (strip turn.instruction) t) refl)
        ]
      where
        by_match :
            strip turn.instruction ≢ []
            → (m : Match) → match_row s rank turn.reads turn.kind (strip turn.instruction) t ≡ m
            → UniqueAnalyses
                (elim m as (λ x. Option Candidate × Table) [
                  | unmatched ↦ record_new s turn t
                  | matched existing ↦ record_again s turn existing t
                  | failed ↦ (none, t)
                ]).1.rows
        by_match n unmatched e = record_new-UniqueAnalyses s turn t u (
            unmatched-absent s rank recognises turn.kind (strip turn.instruction) t n
              (ap (λ b. match_row s rank b turn.kind (strip turn.instruction) t) (sym reads) ∙ e))
        by_match n (matched existing) e = record_again-UniqueAnalyses s turn existing t u
        by_match n failed e = u

    pub after-UniqueAnalyses :
        (calls : List Call) (t : Table)
        → all_read calls ≡ true
        → UniqueAnalyses t.rows
        → UniqueAnalyses (after s rank calls t).rows
    unfolding after perform
    after-UniqueAnalyses [] t h u = u
    after-UniqueAnalyses (recording turn ∷ calls) t h u =
        after-UniqueAnalyses calls (record_turn s rank turn t).1 (ground (arith, h))
          (turn-UniqueAnalyses turn t (ground (arith, h)) u)
    after-UniqueAnalyses (settling id promoted_to true ∷ calls) t h u =
        after-UniqueAnalyses calls _ h (
          update-UniqueAnalyses (settled_as promoted_to) (settled_as-kind promoted_to)
            (settled_as-instruction promoted_to) id t.rows u)
    after-UniqueAnalyses (settling id promoted_to false ∷ calls) t h u =
        after-UniqueAnalyses calls t h u

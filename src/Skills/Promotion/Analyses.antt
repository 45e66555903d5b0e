-- ===== src/Skills/Promotion/Analyses.antt =====
-- The analyses that the rows of the table stand for: no analysis has two rows.
use wizard_w.Prelude.{
  ℕ, zero, suc, ◌≡◌, ◌≢◌, ◌<◌, refl, sym, ap, ◌∙◌, Bool, true, false, ◌&&◌, ◌||◌, not, List, [],
  ◌∷◌, ◌++◌, Option, none, some, arith, filter, any, length, contains, leb, ltb, map, ◌==◌, nat_eq,
  Bool-cases, any-append, inl, inr,
}
use wizard_w.Prelude.Text.{Text, text_eq}
use wizard_w.Skills.Candidates.{
  Kind, recurring, recovery, same_kind, Row, Table, is_settled, by_activity, newest_first,
  get_skill_candidates, update_row, find_row, kind_matches,
}
use wizard_w.Skills.Promotion.{PromotionSettings, Ranking, unmatched, nth, match_entries, match_row}

-- Whether a row is of an analysis: a kind and an instruction.
abbrev pub is_of : Kind → Text → Row → Bool
is_of kind instruction r = same_kind r.kind kind && r.instruction == instruction

abbrev pub UniqueAnalyses : List Row → Type 0
UniqueAnalyses [] = Unit
UniqueAnalyses (r ∷ rows) = (any (is_of r.kind r.instruction) rows ≡ false) × UniqueAnalyses rows

abbrev pub is_row_of : Kind → Text → Option Row → Bool
is_row_of kind instruction none = false
is_row_of kind instruction (some r) = is_of kind instruction r

abbrev pub same_rows : Option Row → Option Row → Bool
same_rows none o = false
same_rows (some r) o = is_row_of r.kind r.instruction o

-- Whether the rows of two ids are of one analysis.
abbrev pub same_analysis : Table → ℕ → ℕ → Bool
same_analysis t id j = same_rows (find_row id t.rows) (find_row j t.rows)

-- What is asked of the ranking by similarity: an instruction that is among the texts is found, with a
-- score that is high enough and an index in range.
pub record Recognises (s : PromotionSettings) (rank : Ranking) (query : Text) (texts : List Text)
    : Type 0 where
  pub score : ℕ
  pub index : ℕ
  pub found : rank query texts ≡ some (score, index)
  pub similar : ltb score s.min_similarity ≡ false
  pub in_range : index < length texts

same_kind-sym : (a b : Kind) → same_kind a b ≡ same_kind b a
same_kind-sym recurring recurring = refl
same_kind-sym recurring recovery = refl
same_kind-sym recovery recurring = refl
same_kind-sym recovery recovery = refl

same_text-sym : (a b : Text) → (a == b) ≡ (b == a)
same_text-sym a b = ground (arith, text_eq.decides a b, text_eq.decides b a)

pub is_of-sym : (r q : Row) → is_of r.kind r.instruction q ≡ is_of q.kind q.instruction r
is_of-sym r q =
    ground (arith, same_kind-sym r.kind q.kind, same_text-sym r.instruction q.instruction)

abbrev instruction_of : Row → Text
instruction_of r = r.instruction

contains-by_activity :
    (i : Text) (r : Row) (rows : List Row)
    → contains i (map instruction_of (by_activity r rows))
      ≡ contains i (map instruction_of (r ∷ rows))
unfolding by_activity
contains-by_activity i r [] = refl
contains-by_activity i r (q ∷ rows) = elim (Bool-cases (leb q.last_seen r.last_seen)) [
  | inl first ↦ rw first refl
  | inr later ↦ rw later (ground (arith, contains-by_activity i r rows))
]

contains-newest_first :
    (i : Text) (rows : List Row)
    → contains i (map instruction_of (newest_first rows)) ≡ contains i (map instruction_of rows)
unfolding newest_first
contains-newest_first i [] = refl
contains-newest_first i (r ∷ rows) =
    contains-by_activity i r (newest_first rows)
    ∙ ap (λ b. (r.instruction == i) || b) (contains-newest_first i rows)

kept_settled :
    (kind : Kind) (i : Text) (rows : List Row)
    → any (is_of kind i) rows ≡ true
    → contains i (
        map instruction_of
          (filter (λ (r : Row). kind_matches (some kind) r && (true || not (is_settled r))) rows))
      ≡ true
kept_settled kind i [] h = absurd (ground arith)
kept_settled kind i (r ∷ rows) h = elim (Bool-cases (same_kind r.kind kind)) [
  | inl same ↦ rw same (ground (arith, h, kept_settled kind i rows))
  | inr other ↦ rw other (kept_settled kind i rows (rw other at h))
]

nth-in_range :
    (i : ℕ) (rows : List Row) → i < length (map instruction_of rows) → nth i rows ≡ unmatched → ⊥
unfolding nth
nth-in_range i [] h e = absurd (omega (arith, h))
nth-in_range zero (r ∷ rows) h e = absurd (ground (arith, e))
nth-in_range (suc i) (r ∷ rows) h e = nth-in_range i rows (omega (arith, h)) e

module _ (s : PromotionSettings) (rank : Ranking)
    (recognises : (query : Text) (texts : List Text)
      → query ≢ []
      → contains query texts ≡ true
      → Recognises s rank query texts) where
  present-matched :
      (i : Text) (rows : List Row)
      → i ≢ []
      → contains i (map instruction_of rows) ≡ true
      → match_entries s rank i rows ≡ unmatched
      → ⊥
  unfolding match_entries nth
  present-matched i [] n h e = absurd (ground (arith, h))
  present-matched i (r ∷ rows) n h e =
      let k = recognises i (map instruction_of (r ∷ rows)) n h in
      nth-in_range k.index (r ∷ rows) k.in_range
        (sym (chosen k.score k.index k.found k.similar) ∙ e)
    where
      chosen :
          (score index : ℕ)
          → rank i (map instruction_of (r ∷ rows)) ≡ some (score, index)
          → ltb score s.min_similarity ≡ false
          → match_entries s rank i (r ∷ rows) ≡ nth index (r ∷ rows)
      chosen score index a b = rw (match_entries, a, b) refl

  -- What matches no entry has no row.
  pub unmatched-absent :
      (kind : Kind) (i : Text) (t : Table)
      → i ≢ []
      → match_row s rank true kind i t ≡ unmatched
      → any (is_of kind i) t.rows ≡ false
  unmatched-absent kind i t n e = elim (Bool-cases (any (is_of kind i) t.rows)) [
    | inr absent ↦ absent
    | inl there ↦ absurd (
        present-matched i (get_skill_candidates true (some kind) true t) n
          (unfold get_skill_candidates in
            contains-newest_first i (
              filter (λ (r : Row). kind_matches (some kind) r && (true || not (is_settled r)))
                t.rows)
            ∙ kept_settled kind i t.rows there)
          (unfold match_row in e))
  ]

pub snoc-UniqueAnalyses :
    (rows : List Row) (r : Row)
    → UniqueAnalyses rows
    → any (is_of r.kind r.instruction) rows ≡ false
    → UniqueAnalyses (rows ++ (r ∷ []))
snoc-UniqueAnalyses [] r u h = (refl, tt)
snoc-UniqueAnalyses (q ∷ rows) r u h = (
  ground (arith, u.0, h, any-append (is_of q.kind q.instruction) rows (r ∷ []), is_of-sym q r),
  snoc-UniqueAnalyses rows r u.1 (ground (arith, h)),
)

module _ (f : Row → Row) (kind : (r : Row) → (f r).kind ≡ r.kind)
    (text : (r : Row) → (f r).instruction ≡ r.instruction) where
  any-update :
      (k : Kind) (i : Text) (id : ℕ) (rows : List Row)
      → any (is_of k i) (update_row id f rows) ≡ any (is_of k i) rows
  unfolding update_row
  any-update k i id [] = refl
  any-update k i id (r ∷ rows) = elim (Bool-cases (r.id == id)) [
    | inl same ↦ rw (same, kind r, text r, any-update k i id rows) refl
    | inr other ↦ rw (other, any-update k i id rows) refl
  ]

  pub update-UniqueAnalyses :
      (id : ℕ) (rows : List Row) → UniqueAnalyses rows → UniqueAnalyses (update_row id f rows)
  unfolding update_row
  update-UniqueAnalyses id [] u = tt
  update-UniqueAnalyses id (r ∷ rows) u = elim (Bool-cases (r.id == id)) [
    | inl same ↦
        rw (same, kind r, text r)
          (any-update r.kind r.instruction id rows ∙ u.0, update-UniqueAnalyses id rows u.1)
    | inr other ↦
        rw other (any-update r.kind r.instruction id rows ∙ u.0, update-UniqueAnalyses id rows u.1)
  ]

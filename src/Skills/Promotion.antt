-- ===== src/Skills/Promotion.antt =====
-- backend/src/core/skills/promotion.py: counting how often an analysis recurs, and offering it once.
-- The ranking of texts by `embedding_service.rank` is given.
pub mod Rows
pub mod Steps
pub mod Analyses
pub mod Once
pub mod Final
pub mod Settled
use wizard_w.Prelude.{
  ℕ, zero, suc, ◌+◌, Bool, true, false, ◌&&◌, ◌||◌, not, List, [], ◌∷◌, ◌++◌, Option, none, some,
  if◌then◌else◌, filter, ltb, leb, ◌==◌, nat_eq, map,
}
use wizard_w.Prelude.Text.{Text, text_eq, strip}
use wizard_w.Skills.Candidates.{
  Kind, recurring, recovery, Row, Table, is_settled, get_skill_candidates, add_skill_candidate,
  bump_skill_candidate, settle_skill_candidate, find_row,
}

-- The settings read here; a similarity is a number of some unit that the ranking shares.
pub record PromotionSettings : Type 0 where
  pub enabled : Bool
  pub threshold : ℕ
  pub min_similarity : ℕ

-- The best score and its index, where there is one.
abbrev pub Ranking : Type 0
Ranking = Text → List Text → Option (ℕ × ℕ)

pub record Candidate : Type 0 where
  pub id : ℕ
  pub kind : Kind
  pub instruction : Text
  pub occurrences : ℕ
  pub plan : Text
  pub code_text : Text
  pub columns : List Text

-- What a lookup of the best entry gives: `failed` is an index out of range, which raises.
pub data Match : Type 0 where
  unmatched : Match
  matched : Row → Match
  failed : Match

unfoldable pub nth : ℕ → List Row → Match
nth i [] = failed
nth zero (r ∷ rows) = matched r
nth (suc i) (r ∷ rows) = nth i rows

-- The best of some entries, where it is similar enough.
unfoldable pub match_entries : PromotionSettings → Ranking → Text → List Row → Match
unfolding nth
match_entries s rank instruction [] = unmatched
match_entries s rank instruction (r ∷ rows) =
    elim (rank instruction (map (λ e. e.instruction) (r ∷ rows))) [
      | none ↦ unmatched
      | some (score, index) ↦ if ltb score s.min_similarity then unmatched else nth index (r ∷ rows)
    ]

-- `_match`
unfoldable pub match_row : PromotionSettings → Ranking → Bool → Kind → Text → Table → Match
unfolding get_skill_candidates match_entries
match_row s rank reads kind instruction t =
    match_entries s rank instruction (get_skill_candidates reads (some kind) true t)

-- What `record` is told of one turn.
pub record Turn : Type 0 where
  pub kind : Kind
  pub instruction : Text
  pub columns : List Text
  pub plan : Text
  pub code_text : Text
  pub now : ℕ
  -- whether the reads and the writes of this call reach the database
  pub reads : Bool
  pub writes : Bool

-- The end of `record`: an offer at the very occurrence that reaches the threshold.
unfoldable pub offered : PromotionSettings → Turn → ℕ → ℕ → Option Candidate
unfolding strip
offered s turn id occurrences =
    if id == 0 || not (occurrences == s.threshold)
    then none
    else some (record {
      id = id;
      kind = turn.kind;
      instruction = strip turn.instruction;
      occurrences = occurrences;
      plan = turn.plan;
      code_text = turn.code_text;
      columns = turn.columns;
    })

-- The first occurrence of an analysis.
unfoldable pub record_new : PromotionSettings → Turn → Table → Option Candidate × Table
unfolding offered add_skill_candidate
record_new s turn t =
    let (id, t') =
      add_skill_candidate turn.writes turn.kind (strip turn.instruction) turn.columns turn.plan
        turn.code_text turn.now t in
    (offered s turn id 1, t')

-- Another occurrence of the analysis of a row.
unfoldable pub record_again : PromotionSettings → Turn → Row → Table → Option Candidate × Table
unfolding offered bump_skill_candidate
record_again s turn existing t =
    let (occurrences, t') =
      bump_skill_candidate turn.writes existing.id turn.plan turn.code_text turn.now t in
    (if is_settled existing then none else offered s turn existing.id occurrences, t')

-- `record`
unfoldable pub record_turn : PromotionSettings → Ranking → Turn → Table → Option Candidate × Table
unfolding match_row record_new record_again
record_turn s rank turn t =
    if not s.enabled || strip turn.instruction == []
    then (none, t)
    else elim (match_row s rank turn.reads turn.kind (strip turn.instruction) t) [
      | unmatched ↦ record_new s turn t
      | matched existing ↦ record_again s turn existing t
      | failed ↦ (none, t)
    ]

-- `_from_row`
unfoldable pub from_row : Row → Candidate
from_row r = record {
  id = r.id;
  kind = r.kind;
  instruction = r.instruction;
  occurrences = r.occurrences;
  plan = r.plan;
  code_text = r.code_text;
  columns = r.columns;
}

unfoldable pub pending : PromotionSettings → Bool → Table → List Candidate
unfolding from_row get_skill_candidates
pending s reads t =
    map from_row
      (filter (λ r. leb s.threshold r.occurrences) (get_skill_candidates reads none false t))

-- `dismiss` and `mark_promoted` are `settle_skill_candidate`; these are all the calls that write.
pub data Call : Type 0 where
  recording : Turn → Call
  settling : ℕ → Option Text → Bool → Call

unfoldable pub perform : PromotionSettings → Ranking → Call → Table → Option Candidate × Table
unfolding record_turn settle_skill_candidate
perform s rank (recording turn) t = record_turn s rank turn t
perform s rank (settling id promoted_to writes) t =
    (none, (settle_skill_candidate writes id promoted_to t).1)

abbrev pub offer_ids : Option Candidate → List ℕ
offer_ids none = []
offer_ids (some c) = c.id ∷ []

-- The ids of the offers that a history of calls makes, in order.
unfoldable pub offers : PromotionSettings → Ranking → List Call → Table → List ℕ
unfolding perform
offers s rank [] t = []
offers s rank (call ∷ calls) t =
    let (made, t') = perform s rank call t in offer_ids made ++ offers s rank calls t'

unfoldable pub after : PromotionSettings → Ranking → List Call → Table → Table
unfolding perform
after s rank [] t = t
after s rank (call ∷ calls) t = after s rank calls (perform s rank call t).1

-- ===== src/Llm/Usage/Merged.antt =====
-- What a parent session and its subagents cost together.
use wizard_w.Prelude.{
  ℕ, ◌+◌, ◌≡◌, ap, refl, ◌&&◌, not, List, [], ◌∷◌, Option, none, some, arith, if◌then◌else◌,
  nat_beq, length, sum_by, ◌==◌, contains, Option-cases, inl, inr,
}
use wizard_w.Prelude.Dict.{Dict, lookup, insert}
use wizard_w.Prelude.Text.{Text, text_eq}
use wizard_w.Prelude.Totals.{total, total-insert}
use wizard_w.Llm.Usage.{
  UsageRecord, Key, key_eq, SessionUsage, empty_usage, to_dict, Ledger, session_usage, totals,
  unique_ids, folded, merge_records, merge_sessions, merge_found, or_empty, totals_many,
}
use wizard_w.Llm.Usage.Ledger.{sum_by-values, counts, plus}

-- A record folded into the one that the merged totals hold of its key.
abbrev joined : UsageRecord → Option UsageRecord → UsageRecord
joined r none = r
joined r (some t) = folded r t

-- A measure that adds up when one record is folded into another.
module _ (f : UsageRecord → ℕ) (additive : (r t : UsageRecord) → f (folded r t) ≡ f t + f r) where
  total-merge_records :
      (d merged : Dict Key UsageRecord)
      → total f (merge_records d merged) ≡ total f merged + total f d
  unfolding merge_records
  total-merge_records [] merged = omega arith
  total-merge_records ((key, r) ∷ rest) merged =
      let r' : UsageRecord = joined r (lookup key merged) in
      let rise : total f (insert key r' merged) ≡ total f merged + f r =
        elim (Option-cases (lookup key merged)) [
          | inl fresh ↦ ground (arith, total-insert f key r' merged)
          | inr (t, found) ↦
              ground
                (arith, total-insert f key r' merged, additive r t, ap (λ o. f (joined r o)) found)
        ] in
      ground (arith, rise, total-merge_records rest (insert key r' merged))

  total-merge_found :
      (merged : SessionUsage) (found : Option SessionUsage)
      → total f (merge_found merged found).records
        ≡ total f merged.records + total f (or_empty found).records
  total-merge_found merged none = omega arith
  total-merge_found merged (some u) = total-merge_records u.records merged.records

  total-merge_sessions :
      (ledger : Ledger) (ids : List Text) (merged : SessionUsage)
      → total f (merge_sessions ledger ids merged).records
        ≡ total f merged.records + sum_by (λ id. total f (session_usage id ledger).records) ids
  unfolding merge_sessions
  total-merge_sessions ledger [] merged = omega arith
  total-merge_sessions ledger (id ∷ ids) merged = ground (
    arith,
    total-merge_found merged (lookup id ledger),
    total-merge_sessions ledger ids (merge_found merged (lookup id ledger)),
  )

-- How often an id stands in a list.
abbrev pub occurrences : Text → List Text → ℕ
occurrences k [] = 0
occurrences k (id ∷ ids) = (if id == k then 1 else 0) + occurrences k ids

occurrences-unique_ids :
    (k : Text) (seen ids : List Text)
    → occurrences k (unique_ids seen ids)
      ≡ (if contains k ids && not (contains k seen) && not (nat_beq (length k) 0) then 1 else 0)
unfolding unique_ids
occurrences-unique_ids k seen [] = refl
occurrences-unique_ids k seen (id ∷ ids) = ground (
  arith,
  text_eq.decides id k,
  occurrences-unique_ids k seen ids,
  occurrences-unique_ids k (id ∷ seen) ids,
  λ (e : id ≡ k). ap (λ x. contains x seen) e,
  λ (e : id ≡ k). ap length e,
)

-- The counts of a list of sessions, each as often as it is listed.
abbrev pub summed : List Text → Ledger → ℕ × ℕ × ℕ
summed [] ledger = (0, 0, 0)
summed (id ∷ ids) ledger = plus (counts (totals id ledger)) (summed ids ledger)

counts-sums :
    (ids : List Text) (ledger : Ledger)
    → summed ids ledger ≡ (
      sum_by (λ id. total (λ r. r.calls) (session_usage id ledger).records) ids,
      sum_by (λ id. total (λ r. r.input_tokens) (session_usage id ledger).records) ids,
      sum_by (λ id. total (λ r. r.output_tokens) (session_usage id ledger).records) ids,
    )
unfolding totals to_dict
counts-sums [] ledger = refl
counts-sums (id ∷ ids) ledger =
    let d = (session_usage id ledger).records in
    ground (
      arith,
      counts-sums ids ledger,
      sum_by-values (λ r. r.calls) d,
      sum_by-values (λ r. r.input_tokens) d,
      sum_by-values (λ r. r.output_tokens) d,
    )

-- The combined totals of some sessions count each session's calls and tokens once: they are the sums
-- over a list in which every non-empty id that was asked for stands exactly once, however often it
-- was asked for, and no other id stands.
pub totals_many-sums :
    (ids : List Text) (ledger : Ledger)
    → (counts (totals_many ids ledger) ≡ summed (unique_ids [] ids) ledger)
      × ((k : Text)
          → occurrences k (unique_ids [] ids)
            ≡ (if contains k ids && not (nat_beq (length k) 0) then 1 else 0))
unfolding totals_many to_dict folded
totals_many-sums ids ledger =
    let once = unique_ids [] ids in
    let d = (merge_sessions ledger once empty_usage).records in
    (
      ground (
        arith,
        counts-sums once ledger,
        sum_by-values (λ r. r.calls) d,
        sum_by-values (λ r. r.input_tokens) d,
        sum_by-values (λ r. r.output_tokens) d,
        total-merge_sessions (λ r. r.calls) (λ r t. refl) ledger once empty_usage,
        total-merge_sessions (λ r. r.input_tokens) (λ r t. refl) ledger once empty_usage,
        total-merge_sessions (λ r. r.output_tokens) (λ r t. refl) ledger once empty_usage,
      ),
      λ k. ground (arith, occurrences-unique_ids k [] ids),
    )

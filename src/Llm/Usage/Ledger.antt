-- ===== src/Llm/Usage/Ledger.antt =====
-- What a recorded call does to the totals of every session.
use wizard_w.Prelude.{
  ℕ, ◌+◌, ◌≡◌, ap, refl, ◌&&◌, not, [], ◌∷◌, none, some, arith, if◌then◌else◌, nat_beq, sum_by,
  ◌==◌, pair_eq, Bool-cases, inl, inr,
}
use wizard_w.Prelude.Dict.{
  Dict, lookup, values, lookup-insert, lookup-erase, UniqueKeys, insert-UniqueKeys,
}
use wizard_w.Prelude.Text.{Text, text_eq, list_beq}
use wizard_w.Prelude.Totals.{total, total-insert}
use wizard_w.Llm.Usage.{
  TokenUsage, total_tokens, UsageRecord, charged, new_record, Key, key_eq, SessionUsage, add,
  Totals, to_dict, Ledger, session_usage, empty_usage, record_usage, totals, forget, or_unknown,
}

-- The sums over the values of a dictionary are those over its entries.
pub sum_by-values :
    (f : UsageRecord → ℕ) (d : Dict Key UsageRecord) → sum_by f (values d) ≡ total f d
sum_by-values f [] = refl
sum_by-values f ((k, r) ∷ d) = ground (arith, sum_by-values f d)

-- A measure that a call raises by a fixed amount rises by it in the session's sum.
add-total :
    (f : UsageRecord → ℕ) (extra : ℕ) (provider model role : Text) (usage : TokenUsage)
    (u : SessionUsage)
    → f (new_record provider model role) ≡ 0
    → ((r : UsageRecord) → f (charged usage r) ≡ f r + extra)
    → total f (add provider model role usage u).records ≡ total f u.records + extra
unfolding add
add-total f extra provider model role usage u fresh rises =
    let key : Key = (provider, (model, role)) in
    let found : UsageRecord = elim (lookup key u.records) [
      | none ↦ new_record provider model role
      | some r ↦ r
    ] in
    ground (arith, total-insert f key (charged usage found) u.records, rises found, fresh)

-- The calls, input tokens and output tokens that a session reports.
abbrev pub counts : Totals → ℕ × ℕ × ℕ
counts t = (t.calls, t.input_tokens, t.output_tokens)

abbrev pub plus : ℕ × ℕ × ℕ → ℕ × ℕ × ℕ → ℕ × ℕ × ℕ
plus (a, b, c) (x, y, z) = (a + x, b + y, c + z)

abbrev pub one_call : TokenUsage → ℕ × ℕ × ℕ
one_call usage = (1, usage.input_tokens, usage.output_tokens)

add-counts :
    (provider model role : Text) (usage : TokenUsage) (u : SessionUsage)
    → counts (to_dict (add provider model role usage u))
      ≡ plus (counts (to_dict u)) (one_call usage)
unfolding charged to_dict
add-counts provider model role usage u =
    let u' = add provider model role usage u in
    ground (
      arith,
      sum_by-values (λ r. r.calls) u.records,
      sum_by-values (λ r. r.calls) u'.records,
      sum_by-values (λ r. r.input_tokens) u.records,
      sum_by-values (λ r. r.input_tokens) u'.records,
      sum_by-values (λ r. r.output_tokens) u.records,
      sum_by-values (λ r. r.output_tokens) u'.records,
      add-total (λ r. r.calls) 1 provider model role usage u refl (λ r. refl),
      add-total (λ r. r.input_tokens) usage.input_tokens provider model role usage u refl
          (λ r. refl),
      add-total (λ r. r.output_tokens) usage.output_tokens provider model role usage u refl
          (λ r. refl),
    )

-- A call is recorded unless it has no session or no tokens. A recorded call adds one call and its
-- tokens to the totals of its own session; no other session's totals change.
totals-record_usage :
    (id other provider model role : Text) (usage : TokenUsage) (ledger : Ledger)
    → counts (totals other (record_usage id provider model role usage ledger)) ≡ (
        if other == id && not (id == []) && not (nat_beq (total_tokens usage) 0)
        then plus (counts (totals other ledger)) (one_call usage)
        else counts (totals other ledger))
unfolding record_usage totals
totals-record_usage [] other provider model role usage ledger = unfold list_beq in ground arith
totals-record_usage (c ∷ id) other provider model role usage ledger =
    let u = add provider (or_unknown model) role usage (session_usage (c ∷ id) ledger) in
    unfold list_beq in
    ground (
      arith,
      lookup-insert (c ∷ id) other u ledger,
      text_eq.decides (c ∷ id) other,
      text_eq.decides other (c ∷ id),
      λ (e : other ≡ c ∷ id). ap (λ i. counts (to_dict (session_usage i ledger))) e,
      add-counts provider (or_unknown model) role usage (session_usage (c ∷ id) ledger),
    )

-- Forgetting a session sets its totals to nothing and leaves those of every other session.
pub totals-forget :
    (id other : Text) (ledger : Ledger)
    → UniqueKeys ledger
    → totals other (forget id ledger)
      ≡ (if id == other then to_dict empty_usage else totals other ledger)
unfolding totals forget
totals-forget id other ledger unique = ground (arith, lookup-erase id other ledger unique)

-- No session occurs twice in the ledger, whatever is recorded.
pub record_usage-UniqueKeys :
    (id provider model role : Text) (usage : TokenUsage) (ledger : Ledger)
    → UniqueKeys ledger
    → UniqueKeys (record_usage id provider model role usage ledger)
unfolding record_usage
record_usage-UniqueKeys [] provider model role usage ledger v = v
record_usage-UniqueKeys (c ∷ id) provider model role usage ledger v =
    elim (Bool-cases (nat_beq (total_tokens usage) 0)) [
      | inl empty ↦ rw empty v
      | inr used ↦ rw used (insert-UniqueKeys (c ∷ id) _ ledger v)
    ]

-- ===== src/Llm/Usage.antt =====
-- backend/src/core/llm/usage.py: tokens and spend, by session. Costs are exact, in units of 10^-8 US
-- dollar; the rounding for display and the sorted list of unpriced models are left out.
pub mod Tokens
pub mod Ledger
pub mod Merged
pub mod Costs
use wizard_w.Prelude.{
  ℕ, ◌+◌, ◌*◌, ◌/◌, String, Bool, true, false, ◌||◌, ◌&&◌, not, List, [], ◌∷◌, Option, none, some,
  if◌then◌else◌, nat_beq, leb, length, filter, any, sum_by, map, contains, pair_eq, Eq,
}
use wizard_w.Prelude.Dict.{Dict, lookup, insert, erase, values}
use wizard_w.Prelude.Text.{Text, codes, text_eq}
use wizard_w.Providers.{is_cloud}
use wizard_w.Llm.Pricing.{Price, price_for}

pub record TokenUsage : Type 0 where
  pub input_tokens : ℕ
  pub output_tokens : ℕ
  pub exact : Bool

abbrev pub total_tokens : TokenUsage → ℕ
total_tokens usage = usage.input_tokens + usage.output_tokens

pub record UsageRecord : Type 0 where
  pub provider : Text
  pub model : Text
  pub role : Text
  pub calls : ℕ
  pub input_tokens : ℕ
  pub output_tokens : ℕ
  pub estimated : Bool

-- The cost of a record, where its model is billed and priced.
unfoldable pub cost_usd : UsageRecord → Option ℕ
cost_usd r =
    if is_cloud r.provider
    then elim (price_for r.model) [
      | none ↦ none
      | some price ↦ some (r.input_tokens * price.0 + r.output_tokens * price.1)
    ]
    else none

abbrev pub Key : Type 0
Key = Text × (Text × Text)

instance abbrev pub key_eq : Eq Key
key_eq = pair_eq

pub record SessionUsage : Type 0 where
  pub records : Dict Key UsageRecord

abbrev pub empty_usage : SessionUsage
empty_usage = record { records = [] }

abbrev pub new_record : Text → Text → Text → UsageRecord
new_record provider model role = record {
  provider = provider;
  model = model;
  role = role;
  calls = 0;
  input_tokens = 0;
  output_tokens = 0;
  estimated = false;
}

unfoldable pub charged : TokenUsage → UsageRecord → UsageRecord
charged usage r = record r {
  calls = r.calls + 1;
  input_tokens = r.input_tokens + usage.input_tokens;
  output_tokens = r.output_tokens + usage.output_tokens;
  estimated = r.estimated || not usage.exact;
}

-- `SessionUsage.add`
unfoldable pub add : Text → Text → Text → TokenUsage → SessionUsage → SessionUsage
unfolding charged
add provider model role usage u =
    let key : Key = (provider, (model, role)) in
    let found : UsageRecord = elim (lookup key u.records) [
      | none ↦ new_record provider model role
      | some r ↦ r
    ] in
    record u { records = insert key (charged usage found) u.records }

-- What `SessionUsage.to_dict` reports.
pub record Totals : Type 0 where
  pub records : List UsageRecord
  pub calls : ℕ
  pub input_tokens : ℕ
  pub output_tokens : ℕ
  pub total_tokens : ℕ
  pub cost : Option ℕ
  pub any_cloud : Bool
  pub estimated : Bool

unfoldable pub is_priced : UsageRecord → Bool
unfolding cost_usd
is_priced r = elim (cost_usd r) [ none ↦ false | some c ↦ true ]

unfoldable pub cost_or_zero : UsageRecord → ℕ
unfolding cost_usd
cost_or_zero r = elim (cost_usd r) [ none ↦ 0 | some c ↦ c ]

-- The sum over the priced records, where there are any.
unfoldable pub priced_sum : List UsageRecord → Option ℕ
priced_sum [] = none
priced_sum (r ∷ rs) = some (sum_by cost_or_zero (r ∷ rs))

unfoldable pub to_dict : SessionUsage → Totals
unfolding priced_sum
to_dict u =
    let rs = values u.records in
    record {
      records = rs;
      calls = sum_by (λ r. r.calls) rs;
      input_tokens = sum_by (λ r. r.input_tokens) rs;
      output_tokens = sum_by (λ r. r.output_tokens) rs;
      total_tokens = sum_by (λ r. r.input_tokens + r.output_tokens) rs;
      cost = priced_sum (filter is_priced rs);
      any_cloud = any (λ r. is_cloud r.provider) rs;
      estimated = any (λ r. r.estimated) rs;
    }

-- `UsageLedger._sessions`
abbrev pub Ledger : Type 0
Ledger = Dict Text SessionUsage

abbrev pub or_empty : Option SessionUsage → SessionUsage
or_empty none = empty_usage
or_empty (some u) = u

abbrev pub session_usage : Text → Ledger → SessionUsage
session_usage session_id ledger = or_empty (lookup session_id ledger)

abbrev pub or_unknown : Text → Text
or_unknown [] = codes "unknown"
or_unknown (c ∷ model) = c ∷ model

-- `UsageLedger.record`; no session id and an empty one are the same to it.
unfoldable pub record_usage : Text → Text → Text → Text → TokenUsage → Ledger → Ledger
unfolding add
record_usage [] provider model role usage ledger = ledger
record_usage (c ∷ id) provider model role usage ledger =
    if nat_beq (total_tokens usage) 0
    then ledger
    else insert (c ∷ id)
        (add provider (or_unknown model) role usage (session_usage (c ∷ id) ledger)) ledger

unfoldable pub totals : Text → Ledger → Totals
unfolding to_dict
totals session_id ledger = to_dict (session_usage session_id ledger)

-- `dict.fromkeys` without the empty id: each id once, where it first occurs.
unfoldable pub unique_ids : List Text → List Text → List Text
unique_ids seen [] = []
unique_ids seen (id ∷ ids) =
    if contains id seen || nat_beq (length id) 0
    then unique_ids seen ids
    else id ∷ unique_ids (id ∷ seen) ids

unfoldable pub folded : UsageRecord → UsageRecord → UsageRecord
folded r target = record target {
  calls = target.calls + r.calls;
  input_tokens = target.input_tokens + r.input_tokens;
  output_tokens = target.output_tokens + r.output_tokens;
  estimated = target.estimated || r.estimated;
}

-- The inner loop of `totals_many`.
unfoldable pub merge_records : Dict Key UsageRecord → Dict Key UsageRecord → Dict Key UsageRecord
unfolding folded lookup insert
merge_records [] merged = merged
merge_records ((key, r) ∷ rest) merged =
    merge_records rest
      (insert key (elim (lookup key merged) [ none ↦ r | some t ↦ folded r t ]) merged)

abbrev pub merge_found : SessionUsage → Option SessionUsage → SessionUsage
merge_found merged none = merged
merge_found merged (some u) = record merged { records = merge_records u.records merged.records }

unfoldable pub merge_sessions : Ledger → List Text → SessionUsage → SessionUsage
unfolding merge_records
merge_sessions ledger [] merged = merged
merge_sessions ledger (id ∷ ids) merged =
    merge_sessions ledger ids (merge_found merged (lookup id ledger))

unfoldable pub totals_many : List Text → Ledger → Totals
unfolding unique_ids merge_sessions to_dict
totals_many session_ids ledger =
    to_dict (merge_sessions ledger (unique_ids [] session_ids) empty_usage)

unfoldable pub forget : Text → Ledger → Ledger
forget session_id ledger = erase session_id ledger

abbrev pub clear : Ledger → Ledger
clear ledger = []

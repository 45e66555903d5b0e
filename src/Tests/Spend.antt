-- ===== src/Tests/Spend.antt =====
-- Tokens and prices.
use wizard_w.Prelude.{
  ◌≡◌, refl, true, ◌&&◌, not, [], ◌∷◌, none, some, if◌then◌else◌, nat_beq, length, all, contains,
  arith,
}
use wizard_w.Prelude.Dict.{lookup, keys, values}
use wizard_w.Prelude.Text.{
  Text, codes, text_eq, list_beq, normalised, strip, lstrip, is_space, lower, lower_char,
  starts_with, occurs,
}
use wizard_w.Providers.{is_local, is_cloud, describe}
use wizard_w.Llm.Pricing.{pricing, price_for, price_in, first_match, longest_first, place}
use wizard_w.Llm.Pricing.Longest.{IsLongestMatch, price_for-IsLongestMatch}
use wizard_w.Llm.Usage.{TokenUsage, SessionUsage, UsageRecord, Ledger, totals_many, unique_ids}
use wizard_w.Llm.Usage.Ledger.{counts}
use wizard_w.Llm.Usage.Merged.{occurrences, summed, totals_many-sums}
use wizard_w.Llm.Usage.Tokens.{Response, amount, IsProper, extract_usage, coerce, from_metadata}

abbrev usage : TokenUsage
usage = record { input_tokens = 120; output_tokens = 30; exact = true }

abbrev sonnet : Text
sonnet = codes "claude-sonnet-4-5-20250929"

abbrev parent : Text
parent = codes "s1"

abbrev child : Text
child = codes "s1--a"

abbrev local_record : UsageRecord
local_record = record {
  provider = codes "ollama";
  model = codes "qwen3";
  role = codes "worker";
  calls = 2;
  input_tokens = 900;
  output_tokens = 80;
  estimated = true;
}

abbrev local_session : SessionUsage
local_session = record {
  records = ((codes "ollama", (codes "qwen3", codes "worker")), local_record) ∷ [];
}

abbrev ledger : Ledger
ledger = (parent, local_session) ∷ (child, local_session) ∷ []

totals_many-sums_example :
    (counts (totals_many (parent ∷ child ∷ parent ∷ []) ledger)
      ≡ summed (unique_ids [] (parent ∷ child ∷ parent ∷ [])) ledger)
    × ((k : Text)
        → occurrences k (unique_ids [] (parent ∷ child ∷ parent ∷ [])) ≡ (
            if contains k (parent ∷ child ∷ parent ∷ []) && not (nat_beq (length k) 0)
            then 1
            else 0))
totals_many-sums_example = totals_many-sums (parent ∷ child ∷ parent ∷ []) ledger

all_local_here :
    all (λ (r : UsageRecord). is_local r.provider) (values local_session.records) ≡ true
unfolding is_local is_cloud describe lookup normalised strip lstrip is_space lower lower_char
    list_beq
all_local_here = refl

sonnet_price : price_for sonnet ≡ some (300, 1500)
unfolding price_for price_in first_match longest_first place lookup normalised strip lstrip is_space
    lower lower_char list_beq starts_with occurs
sonnet_price = refl

price_for-IsLongestMatch_example :
    (best : Text) × (lookup best pricing ≡ some (300, 1500))
    × IsLongestMatch (normalised (some sonnet)) (keys pricing) best
price_for-IsLongestMatch_example = price_for-IsLongestMatch sonnet (300, 1500) sonnet_price

abbrev response : Response
response = record { usage_metadata = some (amount 12, amount 5); response_metadata = none }

response-IsProper : IsProper response
response-IsProper = ((λ a b e. ground arith), λ m e. ground arith)

response_is_exact : (extract_usage response [] []).exact ≡ true
unfolding extract_usage from_metadata coerce
response_is_exact = refl

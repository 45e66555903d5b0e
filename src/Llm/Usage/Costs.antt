-- ===== src/Llm/Usage/Costs.antt =====
-- When a session reports a cost, and which.
use wizard_w.Prelude.{
  ◌≡◌, ◌∙◌, ap, refl, true, false, List, [], ◌∷◌, none, some, arith, if◌then◌else◌, filter, any,
  all, sum_by,
}
use wizard_w.Prelude.Dict.{values}
use wizard_w.Providers.{is_cloud, is_local}
use wizard_w.Llm.Usage.{
  UsageRecord, cost_usd, SessionUsage, to_dict, is_priced, cost_or_zero, priced_sum,
}

-- The records that have no cost add nothing.
sum_by-priced :
    (rs : List UsageRecord) → sum_by cost_or_zero (filter is_priced rs) ≡ sum_by cost_or_zero rs
unfolding is_priced cost_or_zero
sum_by-priced [] = refl
sum_by-priced (r ∷ rs) = ground (arith, sum_by-priced rs)

priced_sum-filter :
    (rs : List UsageRecord)
    → priced_sum (filter is_priced rs)
      ≡ (if any is_priced rs then some (sum_by cost_or_zero (filter is_priced rs)) else none)
unfolding priced_sum
priced_sum-filter [] = refl
priced_sum-filter (r ∷ rs) = ground (arith, priced_sum-filter rs)

-- A session reports a cost exactly when one of its records is billed and priced; the cost is then
-- the sum of the costs of all its records that have one.
to_dict-cost :
    (u : SessionUsage)
    → (to_dict u).cost ≡ (
        if any is_priced (values u.records)
        then some (sum_by cost_or_zero (values u.records))
        else none)
unfolding to_dict
to_dict-cost u =
    priced_sum-filter (values u.records)
    ∙ ap (λ n. if any is_priced (values u.records) then some n else none)
        (sum_by-priced (values u.records))

all_local :
    (rs : List UsageRecord)
    → all (λ r. is_local r.provider) rs ≡ true
    → (any is_priced rs ≡ false) × (any (λ r. is_cloud r.provider) rs ≡ false)
unfolding is_local is_priced cost_usd
all_local [] h = (refl, refl)
all_local (r ∷ rs) h = ground (arith, all_local rs)

-- A session whose calls all went to local providers reports no cost at all, not a cost of zero, and
-- says that no cloud model ran.
local_usage_has_no_cost :
    (u : SessionUsage)
    → all (λ r. is_local r.provider) (values u.records) ≡ true
    → ((to_dict u).cost ≡ none) × ((to_dict u).any_cloud ≡ false)
unfolding to_dict
local_usage_has_no_cost u h = ground (arith, to_dict-cost u, all_local (values u.records) h)

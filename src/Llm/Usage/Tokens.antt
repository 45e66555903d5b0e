-- ===== src/Llm/Usage/Tokens.antt =====
-- backend/src/core/llm/usage.py, the reading of a response: the counts a client reports, or an
-- estimate from the number of characters.
use wizard_w.Prelude.{
  ℕ, zero, suc, ◌/◌, ◌≡◌, ◌<◌, refl, Bool, true, false, ◌||◌, ◌&&◌, Option, none, some, arith,
  if◌then◌else◌, nat_beq, length,
}
use wizard_w.Prelude.Text.{Text}
use wizard_w.Llm.Usage.{TokenUsage, total_tokens}

-- A value in a client's metadata: absent or None, an integer, one below 0, or a truthy value that
-- `int` refuses. A number in quotes is left out.
pub data Count : Type 0 where
  missing : Count
  amount : ℕ → Count
  below_zero : Count
  unreadable : Count

abbrev pub truthy : Count → Bool
truthy missing = false
truthy (amount zero) = false
truthy _ = true

-- `a or b`
abbrev pub or_else : Count → Count → Count
or_else a b = if truthy a then a else b

-- `_coerce`
unfoldable pub coerce : Count → ℕ
coerce (amount n) = n
coerce _ = 0

-- The entries of a `token_usage` dictionary.
pub record Fields : Type 0 where
  pub prompt_tokens : Count
  pub input_tokens : Count
  pub completion_tokens : Count
  pub output_tokens : Count

-- `response_metadata`, where an empty dictionary counts as absent; what a client puts in place of a
-- dictionary that is neither absent nor empty nor a dictionary is left out.
pub record Metadata : Type 0 where
  pub token_usage : Option Fields
  pub usage : Option Fields
  pub prompt_eval_count : Count
  pub eval_count : Count

-- A client's response; `usage_metadata` has input and output tokens.
pub record Response : Type 0 where
  pub usage_metadata : Option (Count × Count)
  pub response_metadata : Option Metadata

abbrev pub reported : Count → Count → TokenUsage
reported a b = record { input_tokens = coerce a; output_tokens = coerce b; exact = true }

abbrev pub from_usage_metadata : Option (Count × Count) → Option TokenUsage
from_usage_metadata none = none
from_usage_metadata (some (a, b)) = if truthy a || truthy b then some (reported a b) else none

abbrev pub from_token_usage : Option Fields → Option TokenUsage
from_token_usage none = none
from_token_usage (some f) =
    let given =
      reported (or_else f.prompt_tokens f.input_tokens)
        (or_else f.completion_tokens f.output_tokens) in
    if nat_beq (total_tokens given) 0 then none else some given

abbrev pub from_response_metadata : Option Metadata → Option TokenUsage
from_response_metadata none = none
from_response_metadata (some meta) =
    elim (from_token_usage (elim meta.token_usage [ none ↦ meta.usage | some f ↦ some f ])) [
      | some given ↦ some given
      | none ↦
          if truthy meta.prompt_eval_count || truthy meta.eval_count
          then some (reported meta.prompt_eval_count meta.eval_count)
          else none
    ]

-- `_from_metadata`
unfoldable pub from_metadata : Response → Option TokenUsage
unfolding coerce
from_metadata response = elim (from_usage_metadata response.usage_metadata) [
  | some usage ↦ some usage
  | none ↦ from_response_metadata response.response_metadata
]

abbrev pub chars_per_token : ℕ
chars_per_token = 4

unfoldable pub extract_usage : Response → Text → Text → TokenUsage
unfolding from_metadata
extract_usage response prompt text = elim (from_metadata response) [
  | some found ↦ found
  | none ↦ record {
    input_tokens = length prompt / chars_per_token;
    output_tokens = length text / chars_per_token;
    exact = false;
  }
]

-- A count that is absent or a proper number.
abbrev pub proper : Count → Bool
proper missing = true
proper (amount n) = true
proper _ = false

-- The counts at the top level of the two dictionaries of a response are absent or numbers.
abbrev pub IsProper : Response → Type 0
IsProper response =
    ((a b : Count) → response.usage_metadata ≡ some (a, b) → (proper a && proper b) ≡ true)
    × ((m : Metadata)
        → response.response_metadata ≡ some m
        → (proper m.prompt_eval_count && proper m.eval_count) ≡ true)

proper-truthy : (c : Count) → proper c ≡ true → truthy c ≡ true → 0 < coerce c
unfolding coerce
proper-truthy missing h t = ground arith
proper-truthy (amount zero) h t = ground arith
proper-truthy (amount (suc n)) h t = omega arith
proper-truthy below_zero h t = ground arith
proper-truthy unreadable h t = ground arith

from_usage_metadata-positive :
    (m : Option (Count × Count)) (usage : TokenUsage)
    → ((a b : Count) → m ≡ some (a, b) → (proper a && proper b) ≡ true)
    → from_usage_metadata m ≡ some usage
    → 0 < total_tokens usage
from_usage_metadata-positive none usage v found = ground arith
from_usage_metadata-positive (some (a, b)) usage v found =
    ground (arith, v a b refl, proper-truthy a, proper-truthy b)

from_token_usage-positive :
    (m : Option Fields) (usage : TokenUsage)
    → from_token_usage m ≡ some usage
    → 0 < total_tokens usage
from_token_usage-positive none usage found = ground arith
from_token_usage-positive (some f) usage found = ground arith

from_response_metadata-positive :
    (m : Option Metadata) (usage : TokenUsage)
    → ((n : Metadata) → m ≡ some n → (proper n.prompt_eval_count && proper n.eval_count) ≡ true)
    → from_response_metadata m ≡ some usage
    → 0 < total_tokens usage
from_response_metadata-positive none usage v found = ground arith
from_response_metadata-positive (some n) usage v found = ground (
  arith,
  v n refl,
  proper-truthy n.prompt_eval_count,
  proper-truthy n.eval_count,
  from_token_usage-positive (elim n.token_usage [ none ↦ n.usage | some f ↦ some f ]) usage,
)

abbrev chosen : Option TokenUsage → Option TokenUsage → TokenUsage → TokenUsage
chosen a b estimate =
    let first : Option TokenUsage = elim a [ some u ↦ some u | none ↦ b ] in
    elim first [ some u ↦ u | none ↦ estimate ]

-- The first of two readings that is there, or else an estimate.
chosen_is_positive :
    (a b : Option TokenUsage) (estimate : TokenUsage)
    → estimate.exact ≡ false
    → ((u : TokenUsage) → a ≡ some u → 0 < total_tokens u)
    → ((u : TokenUsage) → b ≡ some u → 0 < total_tokens u)
    → (chosen a b estimate).exact ≡ true
    → 0 < total_tokens (chosen a b estimate)
chosen_is_positive (some u) b estimate guess first second exact = first u refl
chosen_is_positive none (some u) estimate guess first second exact = second u refl
chosen_is_positive none none estimate guess first second exact = ground arith

-- A meter that is marked exact never reads zero, provided the counts of the response are absent or
-- numbers: a response that reports no tokens is estimated instead.
exact_usage_is_positive :
    (response : Response) (prompt text : Text)
    → IsProper response
    → (extract_usage response prompt text).exact ≡ true
    → 0 < total_tokens (extract_usage response prompt text)
unfolding extract_usage from_metadata
exact_usage_is_positive response prompt text v exact =
    chosen_is_positive (from_usage_metadata response.usage_metadata)
      (from_response_metadata response.response_metadata) _ refl
      (λ u. from_usage_metadata-positive response.usage_metadata u v.0)
      (λ u. from_response_metadata-positive response.response_metadata u v.1) exact

-- ===== src/Llm/Pricing.antt =====
-- backend/src/core/llm/usage.py, the price table: hundredths of a US dollar for a million tokens.
pub mod Longest
use wizard_w.Prelude.{
  ℕ, Bool, true, false, ◌||◌, List, [], ◌∷◌, Option, none, some, if◌then◌else◌, leb, length, filter,
}
use wizard_w.Prelude.Dict.{Dict, lookup, keys}
use wizard_w.Prelude.Text.{Text, codes, text_eq, normalised, starts_with, occurs}

abbrev pub Price : Type 0
Price = ℕ × ℕ

abbrev pub pricing : Dict Text Price
pricing =
    (codes "claude-opus-4", (1500, 7500))
    ∷ (codes "claude-sonnet-4", (300, 1500))
    ∷ (codes "claude-haiku-4", (100, 500))
    ∷ (codes "claude-3-5-haiku", (80, 400))
    ∷ (codes "claude-3-5-sonnet", (300, 1500))
    ∷ (codes "claude-3-opus", (1500, 7500))
    ∷ (codes "claude-3-haiku", (25, 125))
    ∷ (codes "gpt-4o-mini", (15, 60))
    ∷ (codes "gpt-4o", (250, 1000))
    ∷ (codes "gpt-4.1-mini", (40, 160))
    ∷ (codes "gpt-4.1-nano", (10, 40))
    ∷ (codes "gpt-4.1", (200, 800))
    ∷ (codes "gpt-4-turbo", (1000, 3000))
    ∷ (codes "gpt-3.5-turbo", (50, 150))
    ∷ (codes "o3-mini", (110, 440))
    ∷ (codes "o1-mini", (110, 440))
    ∷ (codes "o1", (1500, 6000))
    ∷ []

-- `sorted(..., key=len, reverse=True)`: longest first, texts of one length in their order.
unfoldable pub place : Text → List Text → List Text
place x [] = x ∷ []
place x (y ∷ ys) = if leb (length y) (length x) then x ∷ y ∷ ys else y ∷ place x ys

unfoldable pub longest_first : List Text → List Text
unfolding place
longest_first [] = []
longest_first (x ∷ xs) = place x (longest_first xs)

-- The loop of `price_for`.
unfoldable pub first_match : Text → List Text → Option Text
unfolding starts_with occurs
first_match name [] = none
first_match name (prefix ∷ rest) =
    if starts_with prefix name || occurs prefix name then some prefix else first_match name rest

-- `price_for` of a normalised name, over a table.
unfoldable pub price_in : Dict Text Price → Text → Option Price
unfolding lookup longest_first first_match
price_in table [] = none
price_in table (c ∷ rest) = elim (first_match (c ∷ rest) (longest_first (keys table))) [
  | none ↦ none
  | some prefix ↦ lookup prefix table
]

unfoldable pub price_for : Text → Option Price
unfolding price_in
price_for model = price_in pricing (normalised (some model))

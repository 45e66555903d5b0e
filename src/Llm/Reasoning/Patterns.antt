-- ===== src/Llm/Reasoning/Patterns.antt =====
-- What is asked of a pattern, for its search to be read.
pub mod Ends
pub mod Tags
use wizard_w.Prelude.{
  contains, false, nat_eq, ℕ, suc, ◌+◌, ◌≡◌, ◌<◌, ◌≤◌, refl, sym, ◌∙◌, ap, Bool, true, ◌&&◌, List,
  [], ◌∷◌, ◌++◌, Option, none, some, arith, if◌then◌else◌, length, ◌==◌, Bool-cases, inl, inr,
}
use wizard_w.Prelude.Text.{Text, is_space}
use wizard_w.Llm.Reasoning.{
  folded, reasoning_tags, left_bracket, right_bracket, Pattern, after_name, after_bracket, open_end,
  close_end, followed_by, or_else, after_one_of, open_tag, close_tag, found_later, found_here,
  search,
}

-- What holds of a result if there is one.
abbrev pub Post {ℓ} : {A : Type ℓ} → (A → Type 0) → Option A → Type 0
Post P none = Unit
Post P (some a) = P a

pub choice-Post {ℓ} :
    {A : Type ℓ} (P : A → Type 0) (b : Bool) (m n : Option A)
    → Post P m
    → Post P n
    → Post P (if b then m else n)
choice-Post P true m n h k = h
choice-Post P false m n h k = k

pub weaken-Post {ℓ} :
    {A : Type ℓ} (P Q : A → Type 0) (m : Option A) → ((a : A) → P a → Q a) → Post P m → Post Q m
weaken-Post P Q none f h = tt
weaken-Post P Q (some a) f h = f a h

-- The text that a pattern took, which it matches by itself.
pub record Exact (p : Pattern) (s after : Text) : Type 0 where
  pub tag : Text
  pub cut : s ≡ tag ++ after
  pub whole : p tag ≡ some []

-- A match takes at least one character, and a text that goes on still matches.
pub record IsPattern (p : Pattern) : Type 0 where
  pub shorter : (s : Text) → Post (λ r. length r < length s) (p s)
  pub closed : (s t : Text) → p (s ++ t) ≡ none → p s ≡ none
  pub exact : (s : Text) → Post (Exact p s) (p s)
  pub bracketed : (s : Text) → contains right_bracket s ≡ false → p s ≡ none

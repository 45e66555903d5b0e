-- ===== src/Llm/Reasoning/Visible.antt =====
-- What `split_reasoning` leaves visible.
use wizard_w.Prelude.{
  ℕ, suc, ◌≡◌, refl, sym, ◌∙◌, ap, Bool, List, [], ◌∷◌, ◌++◌, Option, none, some, arith, length,
  append_assoc, nat_eq,
}
use mathlib.Core.List.{reverse, reverse-append, reverse-reverse}
use wizard_w.Prelude.Strip.{lstrip-suffix}
use wizard_w.Prelude.Text.{Text, lstrip, strip}
use wizard_w.Llm.Reasoning.{Pattern, open_tag, close_tag, search}
use wizard_w.Llm.Reasoning.Patterns.{Post, IsPattern}
use wizard_w.Llm.Reasoning.Patterns.Tags.{open_tag-IsPattern, close_tag-IsPattern}
use wizard_w.Llm.Reasoning.Searches.{Found, search-Found, search-closed, search-suffix}
use wizard_w.Llm.Reasoning.Held.{Ends}
use wizard_w.Llm.Reasoning.Rounds.{match-Exact}
use wizard_w.Llm.Reasoning.Blocks.{
  without_blocks, joined_thoughts, without_dangling, dangling_of, split_reasoning,
}
use wizard_w.Llm.Reasoning.Ended.{IsDone, without_blocks-IsDone}

strip-inside : (s : Text) → (before after : Text) × (s ≡ before ++ (strip s ++ after))
unfolding strip
strip-inside s =
    let front = lstrip-suffix s in
    let back = lstrip-suffix (reverse (lstrip s)) in
    (
      front.0,
      reverse back.0,
      front.1
          ∙ ap (λ t. front.0 ++ t)
              (sym (reverse-reverse (lstrip s))
                ∙ (ap reverse back.1 ∙ reverse-append back.0 (lstrip (reverse (lstrip s))))),
    )

search-strip :
    (p : Pattern) → IsPattern p → (s : Text) → search p s ≡ none → search p (strip s) ≡ none
search-strip p q s h =
    let parts = strip-inside s in
    search-closed p q (strip s) parts.1
      (search-suffix p parts.0 (strip s ++ parts.1) (ap (search p) (sym parts.2) ∙ h))

module _ (is_word : ℕ → Bool) where
  abbrev IsClean : Text → Type 0
  IsClean t = search (open_tag is_word) t ≡ none

  strip-IsClean : (t : Text) → IsClean t → IsClean (strip t)
  strip-IsClean = search-strip (open_tag is_word) (open_tag-IsPattern is_word)

  without_dangling-IsClean : (parts : List Text × Text) → IsClean (without_dangling is_word parts).1
  unfolding without_dangling
  without_dangling-IsClean (thoughts, visible) =
      clean_of (search (open_tag is_word) visible) refl
        (search-Found (open_tag is_word) (open_tag-IsPattern is_word) visible)
    where
      clean_of :
          (o : Option (Text × Text))
          → search (open_tag is_word) visible ≡ o
          → Post (λ (f : Text × Text). Found (open_tag is_word) visible f.0 f.1) o
          → IsClean
              (elim o as (λ x. Text × Text) [
                | some (before, after) ↦
                    (joined_thoughts (thoughts ++ (strip after ∷ [])), strip before)
                | none ↦ (joined_thoughts thoughts, strip visible)
              ]).1
      clean_of none e f = strip-IsClean visible e
      clean_of (some (before, after)) e f = strip-IsClean before f.first

  -- Splitting a response ends, and what it leaves visible holds no opening tag of a thought.
  pub split_reasoning-clean :
      (text : Text)
      → Ends
          (λ (o : Text × Text). search (open_tag is_word) o.1 ≡ none)
          (split_reasoning is_word text)
  unfolding split_reasoning
  split_reasoning-clean text = opening_of (search (open_tag is_word) text) refl
    where
      whole_text : Option (Text × Text)
      whole_text = dangling_of is_word (without_blocks is_word (suc (length text)) text)

      Clean : Option (Text × Text) → Type 0
      Clean = Ends (λ (o : Text × Text). search (open_tag is_word) o.1 ≡ none)

      dangling : (o : Option (List Text × Text)) → IsDone is_word o → Clean (dangling_of is_word o)
      dangling none k = k
      dangling (some parts) k = without_dangling-IsClean parts

      rest : Clean whole_text
      rest =
          dangling (without_blocks is_word (suc (length text)) text)
            (without_blocks-IsDone is_word (suc (length text)) text (omega arith))

      closing_of :
          (o : Option (Text × Text))
          → search (open_tag is_word) text ≡ none
          → Post (λ (f : Text × Text). Found close_tag text f.0 f.1) o
          → Clean (elim o as (λ x. Option (Text × Text)) [
            | some (before, after) ↦ some (strip before, strip after)
            | none ↦ whole_text
          ])
      closing_of none e f = rest
      closing_of (some (before, after)) e f =
          let x = match-Exact is_word close_tag close_tag-IsPattern f.at after f.matches in
          strip-IsClean after (
            search-suffix (open_tag is_word) (before ++ x.tag) after (
              ap (search (open_tag is_word))
                (append_assoc before x.tag after ∙ sym (f.cut ∙ ap (λ t. before ++ t) x.cut))
              ∙ e))

      opening_of :
          (o : Option (Text × Text))
          → search (open_tag is_word) text ≡ o
          → Clean (elim o as (λ x. Option (Text × Text)) [
            | none ↦ elim (search close_tag text) as (λ x. Option (Text × Text)) [
              | some (before, after) ↦ some (strip before, strip after)
              | none ↦ whole_text
            ]
            | some f ↦ whole_text
          ])
      opening_of none e =
          closing_of (search close_tag text) e (search-Found close_tag close_tag-IsPattern text)
      opening_of (some f) e = rest

-- ===== src/Llm/Reasoning/Ended.antt =====
-- The loop over the blocks of a response ends.
use wizard_w.Prelude.{
  ℕ, zero, suc, ◌<◌, Bool, List, [], ◌∷◌, Option, none, some, arith, ◌&&◌, take, length, ◌==◌,
  nat_eq, Bool-cases, inl, inr,
}
use wizard_w.Prelude.Text.{Text}
use wizard_w.Llm.Reasoning.{
  left_bracket, Pattern, reasoning_tags, after_name, open_end, close_end, followed_by, found_here,
  found_later, search,
}
use wizard_w.Llm.Reasoning.Patterns.{Post, weaken-Post}
use wizard_w.Llm.Reasoning.Patterns.Ends.{close_end-IsPattern, open_end-IsPattern}
use wizard_w.Llm.Reasoning.Patterns.Tags.{named-shorter}
use wizard_w.Llm.Reasoning.Held.{Ends}
use wizard_w.Llm.Reasoning.Blocks.{
  Block, lowered, after_same, close_of, or_block, body_of, block_of, block, thought_before,
  seen_before, without_blocks,
}

search-shorter :
    (p : Pattern)
    → ((s : Text) → Post (λ r. length r < length s) (p s))
    → (s : Text) → Post (λ (f : Text × Text). length f.1 < length s) (search p s)
unfolding search
search-shorter p h [] = here_of (p []) (h [])
  where
    here_of :
        (o : Option Text)
        → Post (λ r. length r < 0) o
        → Post (λ (f : Text × Text). length f.1 < 0) (found_here o none)
    here_of none k = tt
    here_of (some r) k = k
search-shorter p h (c ∷ s) = found_of (p (c ∷ s)) (h (c ∷ s)) (search p s) (search-shorter p h s)
  where
    found_of :
        (o : Option Text)
        → Post (λ r. length r < suc (length s)) o
        → (later : Option (Text × Text)) → Post (λ (f : Text × Text). length f.1 < length s) later
        → Post
            (λ (f : Text × Text). length f.1 < suc (length s))
            (found_here o (found_later c later))
    found_of (some r) k later l = k
    found_of none k none l = tt
    found_of none k (some f) l = omega (arith, l)

same-shorter :
    (name s : Text) → Post (λ r. length r < length s) (followed_by (after_same name s) close_end)
unfolding after_same
same-shorter [] s = close_end-IsPattern.shorter s
same-shorter (a ∷ name) [] = tt
same-shorter (a ∷ name) (c ∷ s) = elim (Bool-cases (lowered c == lowered a)) [
  | inl same ↦ rw same (
      weaken-Post (λ r. length r < length s) (λ r. length r < suc (length s))
        (followed_by (after_same name s) close_end) (λ r k. omega (arith, k)) (same-shorter name s))
  | inr other ↦ rw other tt
]

close_of-shorter : (name s : Text) → Post (λ r. length r < length s) (close_of name s)
unfolding close_of
close_of-shorter name [] = tt
close_of-shorter name (c ∷ []) = tt
close_of-shorter name (c ∷ d ∷ s) = elim (Bool-cases (c == left_bracket && d == b'/')) [
  | inl starts ↦ rw starts (
      weaken-Post (λ r. length r < length s) (λ r. length r < suc (suc (length s)))
        (followed_by (after_same name s) close_end) (λ r k. omega (arith, k)) (same-shorter name s))
  | inr other ↦ rw other tt
]

-- What follows a block is shorter than the text it is found in.
abbrev Shortens : Text → Option Block → Type 0
Shortens s = Post (λ (b : Block). length b.1 < length s)

body_of-shorter :
    (name s : Text) (o : Option Text)
    → Post (λ r. length r < length s) o
    → Shortens s (body_of name o)
body_of-shorter name s none h = tt
body_of-shorter name s (some body) h =
    weaken-Post (λ (b : Block). length b.1 < length body) (λ (b : Block). length b.1 < length s)
      (search (close_of name) body) (λ b k. omega (arith, h, k))
      (search-shorter (close_of name) (close_of-shorter name) body)

or_block-shorter :
    (s : Text) (a b : Option Block) → Shortens s a → Shortens s b → Shortens s (or_block a b)
or_block-shorter s none b h k = k
or_block-shorter s (some a) b h k = h

module _ (is_word : ℕ → Bool) where
  block_of-shorter : (names : List Text) (s : Text) → Shortens s (block_of is_word names s)
  unfolding block_of
  block_of-shorter [] s = tt
  block_of-shorter (name ∷ names) s =
      or_block-shorter s
        (body_of (take (length name) s) (followed_by (after_name name s) (open_end is_word)))
        (block_of is_word names s)
        (body_of-shorter (take (length name) s) s
          (followed_by (after_name name s) (open_end is_word))
          (named-shorter (open_end is_word) (open_end-IsPattern is_word) name s))
        (block_of-shorter names s)

  block-shorter : (s : Text) → Shortens s (block is_word s)
  unfolding block
  block-shorter [] = tt
  block-shorter (c ∷ s) = elim (Bool-cases (c == left_bracket)) [
    | inl starts ↦ rw starts (
        weaken-Post (λ (b : Block). length b.1 < length s)
          (λ (b : Block). length b.1 < suc (length s)) (block_of is_word reasoning_tags s)
          (λ b k. omega (arith, k)) (block_of-shorter reasoning_tags s))
    | inr other ↦ rw other tt
  ]

  -- Some parts, whatever they are.
  abbrev pub IsDone : Option (List Text × Text) → Type 0
  IsDone = Ends (λ parts. Unit)

  pub without_blocks-IsDone :
      (fuel : ℕ) (s : Text) → length s < fuel → IsDone (without_blocks is_word fuel s)
  unfolding without_blocks
  without_blocks-IsDone zero s h = absurd (omega (arith, h))
  without_blocks-IsDone (suc fuel) [] h = tt
  without_blocks-IsDone (suc fuel) (c ∷ s) h =
      after_block (block is_word (c ∷ s)) (block-shorter (c ∷ s))
        (λ t k. without_blocks-IsDone fuel t (omega (arith, h, k)))
    where
      thought : (t : Text) (o : Option (List Text × Text)) → IsDone o → IsDone (thought_before t o)
      thought t none k = k
      thought t (some parts) k = tt

      seen : (o : Option (List Text × Text)) → IsDone o → IsDone (seen_before c o)
      seen none k = k
      seen (some parts) k = tt

      after_block :
          (o : Option Block)
          → Shortens (c ∷ s) o
          → ((t : Text) → length t < suc (length s) → IsDone (without_blocks is_word fuel t))
          → IsDone (elim o as (λ x. Option (List Text × Text)) [
            | some (t, after) ↦ thought_before t (without_blocks is_word fuel after)
            | none ↦ seen_before c (without_blocks is_word fuel s)
          ])
      after_block none b k = seen (without_blocks is_word fuel s) (k s (omega arith))
      after_block (some (t, after)) b k = thought t (without_blocks is_word fuel after) (k after b)

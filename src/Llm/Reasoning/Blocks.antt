-- ===== src/Llm/Reasoning/Blocks.antt =====
-- backend/src/core/llm/reasoning.py, `split_reasoning`: a whole response without its thoughts.
use wizard_w.Prelude.{
  ℕ, zero, suc, ◌+◌, Bool, true, false, ◌&&◌, List, [], ◌∷◌, ◌++◌, Option, none, some,
  if◌then◌else◌, filter, length, leb, take, ◌==◌, nat_eq,
}
use wizard_w.Prelude.Text.{Text, strip}
use wizard_w.Prelude.Split.{join}
use wizard_w.Llm.Reasoning.{
  reasoning_tags, left_bracket, Pattern, after_name, open_end, close_end, followed_by, open_tag,
  close_tag, search,
}

-- A character as a reference to a group compares it, exact for the letters of a tag's name.
abbrev pub lowered : ℕ → ℕ
lowered c =
    if leb b'A' c && leb c b'Z'
    then c + 32
    else if c == 0x212a
    then b'k'
    else if c == 0x130
    then b'i'
    else c

-- `\1`
unfoldable pub after_same : Text → Pattern
after_same [] s = some s
after_same (a ∷ name) [] = none
after_same (a ∷ name) (c ∷ s) = if lowered c == lowered a then after_same name s else none

-- `</\1\s*>`
unfoldable pub close_of : Text → Pattern
close_of name [] = none
close_of name (c ∷ []) = none
close_of name (c ∷ d ∷ s) =
    if c == left_bracket && d == b'/' then followed_by (after_same name s) close_end else none

-- What a block holds, and what follows it.
abbrev pub Block : Type 0
Block = Text × Text

abbrev pub or_block : Option Block → Option Block → Option Block
or_block none b = b
or_block (some a) b = some a

abbrev pub body_of : Text → Option Text → Option Block
body_of name none = none
body_of name (some s) = search (close_of name) s

unfoldable pub block_of : (ℕ → Bool) → List Text → Text → Option Block
block_of is_word [] s = none
block_of is_word (name ∷ names) s =
    or_block (body_of (take (length name) s) (followed_by (after_name name s) (open_end is_word)))
      (block_of is_word names s)

-- `BLOCK`
unfoldable pub block : (ℕ → Bool) → Text → Option Block
block is_word [] = none
block is_word (c ∷ s) = if c == left_bracket then block_of is_word reasoning_tags s else none

abbrev pub thought_before : Text → Option (List Text × Text) → Option (List Text × Text)
thought_before thought none = none
thought_before thought (some (thoughts, visible)) = some (strip thought ∷ thoughts, visible)

abbrev pub seen_before : ℕ → Option (List Text × Text) → Option (List Text × Text)
seen_before c none = none
seen_before c (some (thoughts, visible)) = some (thoughts, c ∷ visible)

-- `BLOCK.sub(capture, text)`, on fuel: the thoughts and what is left.
unfoldable pub without_blocks : (ℕ → Bool) → ℕ → Text → Option (List Text × Text)
without_blocks is_word zero s = none
without_blocks is_word (suc fuel) [] = some ([], [])
without_blocks is_word (suc fuel) (c ∷ s) = elim (block is_word (c ∷ s)) [
  | some (thought, after) ↦ thought_before thought (without_blocks is_word fuel after)
  | none ↦ seen_before c (without_blocks is_word fuel s)
]

abbrev pub is_filled : Text → Bool
is_filled [] = false
is_filled (c ∷ s) = true

abbrev pub joined_thoughts : List Text → Text
joined_thoughts thoughts = strip (join (10 ∷ 10 ∷ []) (filter is_filled thoughts))

-- What follows an opening tag that is never closed is a thought too.
unfoldable pub without_dangling : (ℕ → Bool) → List Text × Text → Text × Text
without_dangling is_word (thoughts, visible) = elim (search (open_tag is_word) visible) [
  | some (before, after) ↦ (joined_thoughts (thoughts ++ (strip after ∷ [])), strip before)
  | none ↦ (joined_thoughts thoughts, strip visible)
]

abbrev pub dangling_of : (ℕ → Bool) → Option (List Text × Text) → Option (Text × Text)
dangling_of is_word none = none
dangling_of is_word (some parts) = some (without_dangling is_word parts)

-- Where there is no opening tag, the text before the first closing one is the thought. `none` would
-- be a lack of fuel.
unfoldable pub split_reasoning : (ℕ → Bool) → Text → Option (Text × Text)
split_reasoning is_word text = elim (search (open_tag is_word) text) [
  | none ↦ elim (search close_tag text) [
    | some (before, after) ↦ some (strip before, strip after)
    | none ↦ dangling_of is_word (without_blocks is_word (suc (length text)) text)
  ]
  | some opening ↦ dangling_of is_word (without_blocks is_word (suc (length text)) text)
]

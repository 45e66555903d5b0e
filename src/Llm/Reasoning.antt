-- ===== src/Llm/Reasoning.antt =====
-- backend/src/core/llm/reasoning.py: the tags around private thoughts, as the regular expressions of
-- the file find them, and `ReasoningStream`. `is_word` is `\w` of Python's `re`.
pub mod Patterns
pub mod Searches
pub mod Unbroken
pub mod Labels
pub mod Held
pub mod Rounds
pub mod Streamed
pub mod Long
pub mod Blocks
pub mod Ended
pub mod Visible
pub mod Orphan
use wizard_w.Prelude.{
  ℕ, zero, suc, ◌+◌, Bool, true, false, ◌&&◌, ◌||◌, List, [], ◌∷◌, ◌++◌, Option, none, some,
  if◌then◌else◌, contains, length, leb, ◌==◌, nat_eq,
}
use wizard_w.Prelude.Text.{Text, codes, is_space}

-- One character as a search that ignores the case compares it, exact for what matches an ASCII
-- letter: with the Kelvin sign, the capital I with a dot, the small one without, and the long s.
unfoldable pub folded : ℕ → ℕ
folded c =
    if leb b'A' c && leb c b'Z'
    then c + 32
    else if c == 0x212a
    then b'k'
    else if c == 0x130 || c == 0x131
    then b'i'
    else if c == 0x17f
    then b's'
    else c

abbrev pub reasoning_tags : List Text
reasoning_tags =
    codes "think" ∷ codes "thinking" ∷ codes "thought" ∷ codes "reasoning" ∷ codes "reflection" ∷ []

abbrev pub left_bracket : ℕ
left_bracket = b'<'

abbrev pub right_bracket : ℕ
right_bracket = b'>'

-- A pattern is tried at the start of a text and gives what follows the match.
abbrev pub Pattern : Type 0
Pattern = Text → Option Text

-- A name, in any case
unfoldable pub after_name : Text → Pattern
after_name [] s = some s
after_name (a ∷ name) [] = none
after_name (a ∷ name) (c ∷ s) = if folded c == a then after_name name s else none

-- `[^>]*>`
unfoldable pub after_bracket : Pattern
after_bracket [] = none
after_bracket (c ∷ s) = if c == right_bracket then some s else after_bracket s

-- `\b[^>]*>`, after a name
unfoldable pub open_end : (ℕ → Bool) → Pattern
open_end is_word [] = none
open_end is_word (c ∷ s) = if is_word c then none else after_bracket (c ∷ s)

-- `\s*>`
unfoldable pub close_end : Pattern
close_end [] = none
close_end (c ∷ s) = if c == right_bracket then some s else if is_space c then close_end s else none

abbrev pub followed_by : Option Text → Pattern → Option Text
followed_by none rest = none
followed_by (some s) rest = rest s

abbrev pub or_else : Option Text → Option Text → Option Text
or_else none b = b
or_else (some s) b = some s

-- The first of the names that lets the whole pattern match
unfoldable pub after_one_of : List Text → Pattern → Pattern
after_one_of [] rest s = none
after_one_of (name ∷ names) rest s =
    or_else (followed_by (after_name name s) rest) (after_one_of names rest s)

-- `OPEN_TAG`
unfoldable pub open_tag : (ℕ → Bool) → Pattern
open_tag is_word [] = none
open_tag is_word (c ∷ s) =
    if c == left_bracket then after_one_of reasoning_tags (open_end is_word) s else none

-- `CLOSE_TAG`
unfoldable pub close_tag : Pattern
close_tag [] = none
close_tag (c ∷ []) = none
close_tag (c ∷ d ∷ s) =
    if c == left_bracket && d == b'/' then after_one_of reasoning_tags close_end s else none

abbrev pub found_later : ℕ → Option (Text × Text) → Option (Text × Text)
found_later c none = none
found_later c (some (before, after)) = some (c ∷ before, after)

abbrev pub found_here : Option Text → Option (Text × Text) → Option (Text × Text)
found_here none later = later
found_here (some after) later = some ([], after)

-- `search`: what stands before the first match and after it
unfoldable pub search : Pattern → Text → Option (Text × Text)
search p [] = found_here (p []) none
search p (c ∷ s) = found_here (p (c ∷ s)) (found_later c (search p s))

abbrev pub max_tag_chars : ℕ
max_tag_chars = length (codes "</reflection>") + 4

-- A piece of text, and whether it is reasoning.
abbrev pub Chunk : Type 0
Chunk = Bool × Text

-- A chunk is sent only if there is text in it.
abbrev pub chunk : Bool → Text → List Chunk → List Chunk
chunk reasoning [] out = out
chunk reasoning (c ∷ s) out = (reasoning, c ∷ s) ∷ out

pub record ReasoningStream : Type 0 where
  pub pending : Text
  pub inside : Bool

abbrev pub new_stream : ReasoningStream
new_stream = record { pending = []; inside = false }

abbrev pub Output : Type 0
Output = List Chunk × ReasoningStream

-- The text before the last `<`, and from it on.
unfoldable pub last_bracket : Text → Option (Text × Text)
last_bracket [] = none
last_bracket (c ∷ s) = elim (last_bracket s) [
  | some (before, marked) ↦ some (c ∷ before, marked)
  | none ↦ if c == left_bracket then some ([], c ∷ s) else none
]

-- What can be sent, and what may still become a tag.
unfoldable pub split_at_marker : Text → Text × Text
split_at_marker s = elim (last_bracket s) [
  | none ↦ (s, [])
  | some (before, marked) ↦
      if leb max_tag_chars (length marked) || contains right_bracket marked
      then (s, [])
      else (before, marked)
]

unfoldable pub drain : ReasoningStream → Output
drain s =
    let (sent, kept) = split_at_marker s.pending in
    (chunk s.inside sent [], record s { pending = kept })

-- One round of the loop of `feed`, if it finds a tag.
unfoldable pub pass_tag : (ℕ → Bool) → ReasoningStream → Option Output
pass_tag is_word s =
    if s.inside
    then elim (search close_tag s.pending) [
      | some (inner, after) ↦ some (chunk true inner [], record { pending = after; inside = false })
      | none ↦ none
    ]
    else elim (search (open_tag is_word) s.pending) [
      | some (before, after) ↦
          some (chunk false before [], record { pending = after; inside = true })
      | none ↦ elim (search close_tag s.pending) [
        | some (head, after) ↦ some (chunk true head [], record { pending = after; inside = false })
        | none ↦ none
      ]
    ]

abbrev pub after_chunks : List Chunk → Option Output → Option Output
after_chunks out none = none
after_chunks out (some (more, s)) = some (out ++ more, s)

-- The loop of `feed`, on fuel. Where nothing is pending, `drain` does nothing either.
unfoldable pub pass_tags : (ℕ → Bool) → ℕ → ReasoningStream → Option Output
pass_tags is_word zero s = none
pass_tags is_word (suc fuel) s = elim (pass_tag is_word s) [
  | none ↦ some (drain s)
  | some (out, s') ↦ after_chunks out (pass_tags is_word fuel s')
]

unfoldable pub feed : (ℕ → Bool) → Text → ReasoningStream → Option Output
feed is_word delta s =
    pass_tags is_word (suc (length (s.pending ++ delta)))
      (record s { pending = s.pending ++ delta })

unfoldable pub flush : ReasoningStream → List Chunk
flush s = chunk s.inside s.pending []

abbrev pub before_chunks : List Chunk → Option (List Chunk) → Option (List Chunk)
before_chunks out none = none
before_chunks out (some more) = some (out ++ more)

-- All the deltas of a response, and the end of it.
unfoldable pub stream_all : (ℕ → Bool) → List Text → ReasoningStream → Option (List Chunk)
stream_all is_word [] s = some (flush s)
stream_all is_word (delta ∷ deltas) s = elim (feed is_word delta s) [
  | none ↦ none
  | some (out, s') ↦ before_chunks out (stream_all is_word deltas s')
]

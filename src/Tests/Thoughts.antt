-- ===== src/Tests/Thoughts.antt =====
-- Responses of models that think aloud.
use wizard_w.Prelude.{
  ℕ, ◌≡◌, ◌<◌, ◌++◌, refl, Bool, true, false, ◌||◌, List, [], ◌∷◌, none, some, arith, ◌==◌, nat_eq,
  length,
}
use wizard_w.Prelude.Text.{Text, codes, is_space, strip, lstrip}
use wizard_w.Prelude.Url.{is_alphanumeric}
use wizard_w.Llm.Reasoning.{
  folded, after_name, after_bracket, open_end, close_end, after_one_of, search, open_tag, close_tag,
  chunk, last_bracket, split_at_marker, drain, pass_tag, pass_tags, flush, ReasoningStream,
  new_stream, max_tag_chars, Output, feed, stream_all, right_bracket,
}
use wizard_w.Llm.Reasoning.Held.{Ends, is_held}
use wizard_w.Llm.Reasoning.Streamed.{feed_keeps_little}
use wizard_w.Llm.Reasoning.Blocks.{
  after_same, close_of, block_of, block, without_blocks, without_dangling, split_reasoning,
}
use wizard_w.Llm.Reasoning.Visible.{split_reasoning-clean}
use wizard_w.Llm.Reasoning.Orphan.{think_open, think_close, orphan_before_open-shown}
use wizard_w.Prelude.Split.{join}
use wizard_w.Llm.Reasoning.Long.{opening, long_tag-shown}

abbrev in_word : ℕ → Bool
in_word c = is_alphanumeric c || c == b'_'

abbrev deltas : List Text
deltas = codes "Hm<TH" ∷ codes "ink>plan</th" ∷ codes "ink>done" ∷ []

thought_apart :
    stream_all in_word deltas new_stream
    ≡ some ((false, codes "Hm") ∷ (true, codes "plan") ∷ (false, codes "done") ∷ [])
unfolding stream_all feed flush drain pass_tags pass_tag search open_tag close_tag after_one_of
    after_name open_end close_end after_bracket folded is_space last_bracket split_at_marker
thought_apart = refl

abbrev thinking : ReasoningStream
thinking = record { pending = codes "<"; inside = true }

feed_keeps_little_example :
    Ends
      (λ (o : Output). (is_held o.1.pending ≡ true) × (length o.1.pending < max_tag_chars))
      (feed in_word (codes "/think>so <thin") thinking)
feed_keeps_little_example = feed_keeps_little in_word (codes "/think>so <thin") thinking

abbrev attribute : Text
attribute = codes "type=\"plan\""

long_tag-shown_example :
    (open_tag in_word (opening ++ (attribute ++ (right_bracket ∷ []))) ≡ some [])
    × (feed in_word (opening ++ attribute) new_stream
        ≡ some ((false, opening ++ attribute) ∷ [], new_stream))
long_tag-shown_example = long_tag-shown in_word refl attribute refl refl (omega arith)

abbrev response : Text
response = codes "<think>a plan</THINK >It is 3.<think>more"

response_split : split_reasoning in_word response ≡ some (codes "a plan\n\nmore", codes "It is 3.")
unfolding split_reasoning without_blocks block block_of close_of after_same without_dangling search
    open_tag close_tag after_one_of after_name open_end close_end after_bracket folded is_space
    strip lstrip join
response_split = refl

split_reasoning-clean_example :
    Ends
      (λ (o : Text × Text). search (open_tag in_word) o.1 ≡ none)
      (split_reasoning in_word response)
split_reasoning-clean_example = split_reasoning-clean in_word response

orphan_before_open-shown_example :
    (close_tag think_close ≡ some [])
    × (feed in_word (codes "plan" ++ (think_close ++ (codes "so" ++ think_open))) new_stream
        ≡ some (
          chunk false (codes "plan" ++ (think_close ++ codes "so")) [],
          record { pending = []; inside = true },
        ))
orphan_before_open-shown_example =
    orphan_before_open-shown in_word (codes "plan") (codes "so") refl refl refl

-- ===== src/Llm/Reasoning/Streamed.antt =====
-- The stream is the reading of the whole text.
use wizard_w.Prelude.{
  ℕ, zero, suc, ◌≡◌, ◌<◌, Bool, true, List, [], ◌∷◌, ◌++◌, Option, none, some, arith, length,
  nat_eq,
}
use wizard_w.Prelude.Text.{Text}
use wizard_w.Llm.Reasoning.{
  max_tag_chars, Chunk, ReasoningStream, Output, drain, pass_tag, after_chunks, pass_tags, feed,
}
use wizard_w.Llm.Reasoning.Held.{Ends, is_held}
use wizard_w.Llm.Reasoning.Labels.{Labelled}
use wizard_w.Llm.Reasoning.Rounds.{Reads, drain-Reads, Round, stops, passes, pass_tag-Round}

module _ (is_word : ℕ → Bool) where
  pass_tags-Reads :
      (fuel : ℕ) (s : ReasoningStream)
      → length s.pending < fuel
      → Ends (Reads is_word s) (pass_tags is_word fuel s)
  unfolding pass_tags
  pass_tags-Reads zero s h = absurd (omega (arith, h))
  pass_tags-Reads (suc fuel) s h =
      after_round (pass_tag is_word s) (pass_tag-Round is_word s.pending s.inside)
        (λ s' k. pass_tags-Reads fuel s' (omega (arith, h, k)))
    where
      continued :
          (out : List Chunk) (s' : ReasoningStream)
          → ((future t : Text) (more : List Chunk) (b : Bool)
              → Labelled is_word s'.inside (s'.pending ++ future) more b t
              → Labelled is_word s.inside (s.pending ++ future) (out ++ more) b t)
          → (o : Option Output) → Ends (Reads is_word s') o
          → Ends (Reads is_word s) (after_chunks out o)
      continued out s' l none r = r
      continued out s' l (some (more, s'')) r = record {
        labels = λ future. l future (s''.pending ++ future) more s''.inside (r.labels future);
        held = r.held;
        quiet = r.quiet;
      }

      after_round :
          (o : Option Output)
          → Round is_word s o
          → ((s' : ReasoningStream)
              → length s'.pending < length s.pending
              → Ends (Reads is_word s') (pass_tags is_word fuel s'))
          → Ends (Reads is_word s) (elim o as (λ x. Option Output) [
            | none ↦ some (drain s)
            | some (out, s') ↦ after_chunks out (pass_tags is_word fuel s')
          ])
      after_round none (stops e) k = drain-Reads is_word s e
      after_round (some (out, s')) (passes _ _ h l) k =
          continued out s' l (pass_tags is_word fuel s') (k s' h)

  feed-Reads :
      (delta : Text) (s : ReasoningStream)
      → Ends
          (Reads is_word (record { pending = s.pending ++ delta; inside = s.inside }))
          (feed is_word delta s)
  unfolding feed
  feed-Reads delta s =
      pass_tags-Reads (suc (length (s.pending ++ delta)))
        (record { pending = s.pending ++ delta; inside = s.inside }) (omega arith)

  -- From any state and for any delta the loop of `feed` ends, and what it keeps back is nothing, or
  -- a `<` with no `>` behind it, in fewer than MAX_TAG_CHARS characters.
  pub feed_keeps_little :
      (delta : Text) (s : ReasoningStream)
      → Ends
          (λ (o : Output). (is_held o.1.pending ≡ true) × (length o.1.pending < max_tag_chars))
          (feed is_word delta s)
  feed_keeps_little delta s = kept (feed is_word delta s) (feed-Reads delta s)
    where
      short : (t : Text) → is_held t ≡ true → length t < max_tag_chars
      short [] h = omega arith
      short (c ∷ t) h = ground arith

      kept :
          (o : Option Output)
          → Ends (Reads is_word (record { pending = s.pending ++ delta; inside = s.inside })) o
          → Ends
              (λ (q : Output). (is_held q.1.pending ≡ true) × (length q.1.pending < max_tag_chars))
              o
      kept none r = r
      kept (some (out, s')) r = (r.held, short s'.pending r.held)

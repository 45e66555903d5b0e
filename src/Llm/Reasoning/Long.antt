-- ===== src/Llm/Reasoning/Long.antt =====
-- Opening tags that are longer than MAX_TAG_CHARS.
use wizard_w.Prelude.{
  ℕ, suc, ◌≡◌, ◌≤◌, refl, ap, ◌∙◌, Bool, false, [], ◌∷◌, ◌++◌, Option, none, some, arith, contains,
  length, ◌==◌, nat_eq,
}
use wizard_w.Prelude.Text.{Text, codes}
use wizard_w.Llm.Reasoning.{
  folded, left_bracket, right_bracket, after_name, after_bracket, open_end, after_one_of, open_tag,
  close_tag, search, chunk, new_stream, Output, after_chunks, last_bracket, split_at_marker, drain,
  pass_tag, pass_tags, feed,
}

abbrev pub opening : Text
opening = codes "<think "

module _ (is_word : ℕ → Bool) where
  pub open_elsewhere :
      (c : ℕ) (s : Text) → (c == left_bracket) ≡ false → open_tag is_word (c ∷ s) ≡ none
  unfolding open_tag
  open_elsewhere c s h = rw h refl

  close_elsewhere : (c : ℕ) (s : Text) → (c == left_bracket) ≡ false → close_tag (c ∷ s) ≡ none
  unfolding close_tag
  close_elsewhere c [] h = refl
  close_elsewhere c (d ∷ s) h = rw h refl

  no_tag :
      (s : Text)
      → contains left_bracket s ≡ false
      → (search (open_tag is_word) s ≡ none) × (search close_tag s ≡ none) × (last_bracket s ≡ none)
  unfolding search last_bracket
  no_tag [] h = (unfold open_tag in refl, unfold close_tag in refl, refl)
  no_tag (c ∷ s) h =
      let other : (c == left_bracket) ≡ false = ground arith in
      let rest = no_tag s (ground arith) in
      (
        rw (open_elsewhere c s other, rest.0) refl,
        rw (close_elsewhere c s other, rest.1) refl,
        rw (rest.2, other) refl,
      )

  no_move :
      (p : Text)
      → search (open_tag is_word) p ≡ none
      → search close_tag p ≡ none
      → pass_tag is_word (record { pending = p; inside = false }) ≡ none
  unfolding pass_tag
  no_move p no_open no_close = rw (no_open, no_close) refl

  drained :
      (n : ℕ) (p : Text)
      → pass_tag is_word (record { pending = p; inside = false }) ≡ none
      → split_at_marker p ≡ (p, [])
      → pass_tags is_word (suc n) (record { pending = p; inside = false })
        ≡ some (chunk false p [], new_stream)
  unfolding pass_tags drain
  drained n p h all_sent =
      ap
        (λ (o : Option Output). elim o as (λ x. Option Output) [
          | none ↦ some (drain (record { pending = p; inside = false }))
          | some (out, s) ↦ after_chunks out (pass_tags is_word n s)
        ])
        h
      ∙ ap
          (λ (q : Text × Text). some (chunk false q.0 [], record { pending = q.1; inside = false }))
          all_sent

  shown :
      (p : Text)
      → search (open_tag is_word) p ≡ none
      → search close_tag p ≡ none
      → split_at_marker p ≡ (p, [])
      → feed is_word p new_stream ≡ some (chunk false p [], new_stream)
  unfolding feed
  shown p no_open no_close all_sent = drained (length p) p (no_move p no_open no_close) all_sent

  unclosed : (s : Text) → contains right_bracket s ≡ false → after_bracket s ≡ none
  unfolding after_bracket
  unclosed [] h = refl
  unclosed (c ∷ s) h = ground (arith, unclosed s)

  closed_by :
      (s : Text)
      → contains right_bracket s ≡ false
      → after_bracket (s ++ (right_bracket ∷ [])) ≡ some []
  unfolding after_bracket
  closed_by [] h = refl
  closed_by (c ∷ s) h = ground (arith, closed_by s)

  module _ (space : is_word b' ' ≡ false) (a : Text)
      (no_end : contains right_bracket a ≡ false) where
    tag_by_itself : open_tag is_word (opening ++ (a ++ (right_bracket ∷ []))) ≡ some []
    unfolding open_tag after_one_of after_name folded open_end after_bracket
    tag_by_itself = rw (space, closed_by a no_end) refl

    no_tag_yet :
        (no_start : contains left_bracket a ≡ false)
        → search (open_tag is_word) (opening ++ a) ≡ none
    unfolding search open_tag after_one_of after_name folded open_end after_bracket
    no_tag_yet no_start = rw (space, unclosed a no_end, (no_tag a no_start).0) refl

    no_close_yet : contains left_bracket a ≡ false → search close_tag (opening ++ a) ≡ none
    unfolding search close_tag
    no_close_yet no_start = rw (close_elsewhere b' ' a refl, (no_tag a no_start).1) refl

    sent_whole :
        contains left_bracket a ≡ false
        → 10 ≤ length a
        → split_at_marker (opening ++ a) ≡ (opening ++ a, [])
    unfolding split_at_marker last_bracket
    sent_whole no_start long = rw ((no_tag a no_start).2) (ground (arith, long))

    -- An opening tag `<think ...>` with 10 characters or more between the space and the `>`, none of
    -- them an angle bracket, is one that OPEN_TAG matches; but where the deltas cut it right before
    -- its `>`, `feed` sends it as visible text and does not go inside the thought.
    pub long_tag-shown :
        contains left_bracket a ≡ false
        → 10 ≤ length a
        → (open_tag is_word (opening ++ (a ++ (right_bracket ∷ []))) ≡ some [])
          × (feed is_word (opening ++ a) new_stream ≡ some ((false, opening ++ a) ∷ [], new_stream))
    long_tag-shown no_start long = (
      tag_by_itself,
      shown (opening ++ a) (no_tag_yet no_start) (no_close_yet no_start) (sent_whole no_start long),
    )

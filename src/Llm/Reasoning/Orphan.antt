-- ===== src/Llm/Reasoning/Orphan.antt =====
-- A closing tag that was never opened, in front of an opening tag.
use wizard_w.Prelude.{
  ℕ, suc, ◌≡◌, refl, ap, ◌∙◌, Bool, true, false, List, [], ◌∷◌, ◌++◌, Option, none, some, arith,
  contains, length, append-nil, ◌==◌, nat_eq,
}
use wizard_w.Prelude.Text.{Text, codes}
use wizard_w.Llm.Reasoning.{
  folded, left_bracket, after_name, after_bracket, open_end, close_end, after_one_of, open_tag,
  close_tag, found_later, search, Chunk, chunk, new_stream, Output, after_chunks, last_bracket,
  split_at_marker, drain, pass_tag, pass_tags, feed,
}
use wizard_w.Llm.Reasoning.Long.{open_elsewhere}

abbrev pub think_open : Text
think_open = codes "<think>"

abbrev pub think_close : Text
think_close = codes "</think>"

module _ (is_word : ℕ → Bool) where
  search-past :
      (s rest before after : Text)
      → contains left_bracket s ≡ false
      → search (open_tag is_word) rest ≡ some (before, after)
      → search (open_tag is_word) (s ++ rest) ≡ some (s ++ before, after)
  unfolding search
  search-past [] rest before after h e = e
  search-past (c ∷ s) rest before after h e =
      let other : (c == left_bracket) ≡ false = ground arith in
      rw
        (
          open_elsewhere is_word c (s ++ rest) other,
          search-past s rest before after (ground arith) e,
        )
        refl

  search-close :
      (rest before after : Text)
      → search (open_tag is_word) rest ≡ some (before, after)
      → search (open_tag is_word) (think_close ++ rest) ≡ some (think_close ++ before, after)
  unfolding search open_tag after_one_of after_name folded
  search-close rest before after e =
      ap (found_later left_bracket) (search-past (codes "/think>") rest before after refl e)

  search-open : is_word b'>' ≡ false → search (open_tag is_word) think_open ≡ some ([], [])
  unfolding search open_tag after_one_of after_name folded open_end after_bracket
  search-open h = rw h refl

  opened :
      (p before : Text)
      → search (open_tag is_word) p ≡ some (before, [])
      → pass_tag is_word (record { pending = p; inside = false })
        ≡ some (chunk false before [], record { pending = []; inside = true })
  unfolding pass_tag
  opened p before h = rw h refl

  nothing_left :
      (n : ℕ)
      → pass_tags is_word (suc n) (record { pending = []; inside = true })
        ≡ some ([], record { pending = []; inside = true })
  unfolding pass_tags pass_tag drain search close_tag split_at_marker last_bracket
  nothing_left n = refl

  one_pass :
      (n : ℕ) (p before : Text)
      → search (open_tag is_word) p ≡ some (before, [])
      → pass_tags is_word (suc (suc n)) (record { pending = p; inside = false })
        ≡ some (chunk false before [] ++ [], record { pending = []; inside = true })
  unfolding pass_tags
  one_pass n p before h =
      ap
        (λ (o : Option Output). elim o as (λ x. Option Output) [
          | none ↦ some (drain (record { pending = p; inside = false }))
          | some (out, s) ↦ after_chunks out (pass_tags is_word (suc n) s)
        ])
        (opened p before h)
      ∙ ap (after_chunks (chunk false before [])) (nothing_left n)

  -- Where the first delta of a response is the end of a thought whose opening tag the server had
  -- prefilled, its closing tag, some text and an opening tag, and neither the thought nor the text has
  -- a `<`, then all up to that opening tag is sent as visible text, though the pattern of closing
  -- tags matches the closing tag. (`>` is no word character.)
  pub orphan_before_open-shown :
      (thought text : Text)
      → is_word b'>' ≡ false
      → contains left_bracket thought ≡ false
      → contains left_bracket text ≡ false
      → (close_tag think_close ≡ some [])
        × (feed is_word (thought ++ (think_close ++ (text ++ think_open))) new_stream
            ≡ some (
              chunk false (thought ++ (think_close ++ text)) [],
              record { pending = []; inside = true },
            ))
  unfolding feed close_tag after_one_of after_name folded close_end
  orphan_before_open-shown thought text bracket h k =
      (refl, sent (thought ++ (think_close ++ (text ++ think_open))) found)
    where
      found :
          search (open_tag is_word) (thought ++ (think_close ++ (text ++ think_open)))
          ≡ some (thought ++ (think_close ++ (text ++ [])), [])
      found =
          search-past thought (think_close ++ (text ++ think_open)) (think_close ++ (text ++ [])) []
            h
            (search-close (text ++ think_open) (text ++ []) []
              (search-past text think_open [] [] k (search-open bracket)))

      sent :
          (p : Text)
          → search (open_tag is_word) p ≡ some (thought ++ (think_close ++ (text ++ [])), [])
          → pass_tags is_word (suc (length p)) (record { pending = p; inside = false })
            ≡ some (
              chunk false (thought ++ (think_close ++ text)) [],
              record { pending = []; inside = true },
            )
      sent [] e = absurd (unfold search in unfold open_tag in ground (arith, e))
      sent (c ∷ p) e =
          one_pass (length p) (c ∷ p) (thought ++ (think_close ++ (text ++ []))) e
          ∙ (ap (λ (out : List Chunk). some (out, record { pending = []; inside = true }))
                (append-nil (chunk false (thought ++ (think_close ++ (text ++ []))) []))
              ∙ ap
                  (λ t. some (
                    chunk false (thought ++ (think_close ++ t)) [],
                    record { pending = []; inside = true },
                  ))
                  (append-nil text))

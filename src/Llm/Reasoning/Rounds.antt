-- ===== src/Llm/Reasoning/Rounds.antt =====
-- One round of the loop of `feed`, and what it does at the end of its rounds.
use mathlib.Core.Path.{subst}
use wizard_w.Prelude.{
  append_assoc, contains, arith, Bool-cases, inl, inr, ℕ, ◌≡◌, ◌<◌, refl, sym, ◌∙◌, ap, Bool, true,
  false, List, [], ◌++◌, Option, none, some, length, nat_eq,
}
use wizard_w.Prelude.Text.{Text}
use wizard_w.Llm.Reasoning.{
  Pattern, right_bracket, open_tag, close_tag, search, Chunk, chunk, ReasoningStream, Output,
  split_at_marker, drain, pass_tag,
}
use wizard_w.Llm.Reasoning.Patterns.{Post, Exact, IsPattern}
use wizard_w.Llm.Reasoning.Patterns.Tags.{open_tag-IsPattern, close_tag-IsPattern}
use wizard_w.Llm.Reasoning.Searches.{
  Found, nowhere, search-closed, search-suffix, search-Found, Found-shorter,
}
use wizard_w.Llm.Reasoning.Unbroken.{Unbroken, found-Unbroken, drain-Unbroken}
use wizard_w.Llm.Reasoning.Held.{is_held, split_at_marker-cut}
use wizard_w.Llm.Reasoning.Labels.{
  ending, Labelled, waits, sends, opens, closes, orphaned, chunk-append,
}

longer : (s x s' d : Text) → s ≡ x ++ s' → s ++ d ≡ x ++ (s' ++ d)
longer s x s' d e = ap (λ a. a ++ d) e ∙ append_assoc x s' d

module _ (is_word : ℕ → Bool) where
  pub ending-IsPattern : (b : Bool) → IsPattern (ending is_word b)
  ending-IsPattern true = close_tag-IsPattern
  ending-IsPattern false = open_tag-IsPattern is_word

  -- What is sent and kept, read from a state with more text to come.
  pub record Reads (s : ReasoningStream) (o : Output) : Type 0 where
    pub labels :
        (future : Text)
        → Labelled is_word s.inside (s.pending ++ future) o.0 o.1.inside (o.1.pending ++ future)
    pub held : is_held o.1.pending ≡ true
    pub quiet : search (ending is_word o.1.inside) o.1.pending ≡ none

  pub drain-Reads :
      (s : ReasoningStream) → search (ending is_word s.inside) s.pending ≡ none → Reads s (drain s)
  unfolding drain
  drain-Reads s h =
      let cut = split_at_marker-cut s.pending in
      let sent = (split_at_marker s.pending).0 in
      let kept = (split_at_marker s.pending).1 in
      let silent : search (ending is_word s.inside) (sent ++ kept) ≡ none =
        ap (search (ending is_word s.inside)) (sym cut.0) ∙ h in
      record {
        labels = λ future.
            sends s.inside s.inside sent (s.pending ++ future) (kept ++ future) (kept ++ future) []
              (longer s.pending sent kept future cut.0)
              (search-closed (ending is_word s.inside) (ending-IsPattern s.inside) sent kept silent)
              (drain-Unbroken (ending is_word s.inside) (ending-IsPattern s.inside) s.pending sent
                kept future h refl cut.0)
              (waits s.inside (kept ++ future));
        held = cut.1;
        quiet = search-suffix (ending is_word s.inside) sent kept silent;
      }

  -- One round: it stops where there is no tag that ends what is being read, or reads a part.
  pub data Round (s : ReasoningStream) : Option Output → Type 0 where
    stops : search (ending is_word s.inside) s.pending ≡ none → Round s none
    passes :
        (out : List Chunk) (s' : ReasoningStream)
        → length s'.pending < length s.pending
        → ((future t : Text) (more : List Chunk) (b : Bool)
            → Labelled is_word s'.inside (s'.pending ++ future) more b t
            → Labelled is_word s.inside (s.pending ++ future) (out ++ more) b t)
        → Round s (some (out, s'))

  pub match-Exact : (p : Pattern) → IsPattern p → (s r : Text) → p s ≡ some r → Exact p s r
  match-Exact p q s r e = of (p s) e (q.exact s)
    where
      of : (o : Option Text) → o ≡ some r → Post (Exact p s) o → Exact p s r
      of o e x = rw e at x

  -- What matches has a `>`.
  holds_end :
      (p : Pattern) → IsPattern p → (s r : Text) → p s ≡ some r → contains right_bracket s ≡ true
  holds_end p q s r e = elim (Bool-cases (contains right_bracket s)) [
    | inl there ↦ there
    | inr absent ↦ absurd (ground (arith, e, q.bracketed s absent))
  ]

  module _ (pending : Text) where
    close_round :
        (o : Option (Text × Text))
        → search close_tag pending ≡ o
        → Post (λ (f : Text × Text). Found close_tag pending f.0 f.1) o
        → Round
            (record { pending = pending; inside = true })
            (elim o as (λ x. Option Output) [
              | some (inner, after) ↦
                  some (chunk true inner [], record { pending = after; inside = false })
              | none ↦ none
            ])
    close_round none e f = stops e
    close_round (some (inner, after)) e f =
        let x = match-Exact close_tag close_tag-IsPattern f.at after f.matches in
        passes (chunk true inner []) (record { pending = after; inside = false })
          (Found-shorter close_tag close_tag-IsPattern pending inner after f)
          (λ future t more b l. rw (chunk-append true inner [] more) (
            sends true b inner (pending ++ future) (f.at ++ future) t more
              (longer pending inner f.at future f.cut) f.first
              (found-Unbroken close_tag close_tag-IsPattern inner f.at future
                (λ a u c. f.earliest a u (f.cut ∙ c))
                (holds_end close_tag close_tag-IsPattern f.at after f.matches))
              (closes b x.tag (f.at ++ future) (after ++ future) t more
                (longer f.at x.tag after future x.cut) x.whole l)))

    orphan_round :
        (o : Option (Text × Text))
        → search (open_tag is_word) pending ≡ none
        → Post (λ (f : Text × Text). Found close_tag pending f.0 f.1) o
        → Round
            (record { pending = pending; inside = false })
            (elim o as (λ x. Option Output) [
              | some (head, after) ↦
                  some (chunk true head [], record { pending = after; inside = false })
              | none ↦ none
            ])
    orphan_round none e f = stops e
    orphan_round (some (head, after)) e f =
        let x = match-Exact close_tag close_tag-IsPattern f.at after f.matches in
        passes (chunk true head []) (record { pending = after; inside = false })
          (Found-shorter close_tag close_tag-IsPattern pending head after f)
          (λ future t more b l. rw (chunk-append true head [] more) (
            orphaned b head x.tag (pending ++ future) (after ++ future) t more
              (longer pending head f.at future f.cut
                ∙ ap (λ a. head ++ a) (longer f.at x.tag after future x.cut))
              f.first
              (subst (Unbroken (open_tag is_word) head) (longer f.at x.tag after future x.cut) (
                found-Unbroken (open_tag is_word) (open_tag-IsPattern is_word) head f.at future
                  (λ a u c k.
                    nowhere (open_tag is_word) (open_tag-IsPattern is_word) pending e a u
                      (f.cut ∙ c))
                  (holds_end close_tag close_tag-IsPattern f.at after f.matches)))
              x.whole l))

    open_round :
        (o : Option (Text × Text))
        → search (open_tag is_word) pending ≡ o
        → Post (λ (f : Text × Text). Found (open_tag is_word) pending f.0 f.1) o
        → Round
            (record { pending = pending; inside = false })
            (elim o as (λ x. Option Output) [
              | some (before, after) ↦
                  some (chunk false before [], record { pending = after; inside = true })
              | none ↦ elim (search close_tag pending) as (λ x. Option Output) [
                | some (head, after) ↦
                    some (chunk true head [], record { pending = after; inside = false })
                | none ↦ none
              ]
            ])
    open_round none e f =
        orphan_round (search close_tag pending) e
          (search-Found close_tag close_tag-IsPattern pending)
    open_round (some (before, after)) e f =
        let x = match-Exact (open_tag is_word) (open_tag-IsPattern is_word) f.at after f.matches in
        passes (chunk false before []) (record { pending = after; inside = true })
          (Found-shorter (open_tag is_word) (open_tag-IsPattern is_word) pending before after f)
          (λ future t more b l. rw (chunk-append false before [] more) (
            sends false b before (pending ++ future) (f.at ++ future) t more
              (longer pending before f.at future f.cut) f.first
              (found-Unbroken (open_tag is_word) (open_tag-IsPattern is_word) before f.at future
                (λ a u c. f.earliest a u (f.cut ∙ c))
                (holds_end (open_tag is_word) (open_tag-IsPattern is_word) f.at after f.matches))
              (opens b x.tag (f.at ++ future) (after ++ future) t more
                (longer f.at x.tag after future x.cut) x.whole l)))

    pub pass_tag-Round :
        (inside : Bool)
        → Round
            (record { pending = pending; inside = inside })
            (pass_tag is_word (record { pending = pending; inside = inside }))
    unfolding pass_tag
    pass_tag-Round true =
        close_round (search close_tag pending) refl
          (search-Found close_tag close_tag-IsPattern pending)
    pass_tag-Round false =
        open_round (search (open_tag is_word) pending) refl
          (search-Found (open_tag is_word) (open_tag-IsPattern is_word) pending)

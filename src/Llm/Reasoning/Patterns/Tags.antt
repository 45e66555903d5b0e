-- ===== src/Llm/Reasoning/Patterns/Tags.antt =====
-- `OPEN_TAG` and `CLOSE_TAG` as patterns.
use wizard_w.Prelude.{
  contains, false, ℕ, suc, ◌≡◌, ◌<◌, refl, sym, ◌∙◌, ap, Bool, ◌&&◌, List, [], ◌∷◌, ◌++◌, Option,
  none, some, arith, length, ◌==◌, nat_eq, Bool-cases, inl, inr,
}
use wizard_w.Prelude.Text.{Text}
use wizard_w.Llm.Reasoning.{
  folded, reasoning_tags, left_bracket, right_bracket, Pattern, after_name, open_end, close_end,
  followed_by, or_else, after_one_of, open_tag, close_tag,
}
use wizard_w.Llm.Reasoning.Patterns.{Post, choice-Post, weaken-Post, Exact, IsPattern}
use wizard_w.Llm.Reasoning.Patterns.Ends.{close_end-IsPattern, open_end-IsPattern}

module _ (rest : Pattern) (q : IsPattern rest) where
  pub named-shorter :
      (name s : Text) → Post (λ r. length r < length s) (followed_by (after_name name s) rest)
  unfolding after_name
  named-shorter [] s = q.shorter s
  named-shorter (a ∷ name) [] = tt
  named-shorter (a ∷ name) (c ∷ s) = elim (Bool-cases (folded c == a)) [
    | inl same ↦ rw same (
        weaken-Post (λ r. length r < length s) (λ r. length r < suc (length s))
          (followed_by (after_name name s) rest) (λ r h. omega (arith, h)) (named-shorter name s))
    | inr other ↦ rw other tt
  ]

  named-closed :
      (name s t : Text)
      → followed_by (after_name name (s ++ t)) rest ≡ none
      → followed_by (after_name name s) rest ≡ none
  unfolding after_name
  named-closed [] s t h = q.closed s t h
  named-closed (a ∷ name) [] t h = refl
  named-closed (a ∷ name) (c ∷ s) t h = elim (Bool-cases (folded c == a)) [
    | inl same ↦ rw same (named-closed name s t (rw same at h))
    | inr other ↦ rw other refl
  ]

  named-Exact :
      (name s : Text)
      → Post
          (Exact (λ t. followed_by (after_name name t) rest) s)
          (followed_by (after_name name s) rest)
  unfolding after_name
  named-Exact [] s = q.exact s
  named-Exact (a ∷ name) [] = tt
  named-Exact (a ∷ name) (c ∷ s) = elim (Bool-cases (folded c == a)) [
    | inl same ↦ rw same (
        weaken-Post (Exact (λ t. followed_by (after_name name t) rest) s)
          (Exact (λ t. followed_by (after_name (a ∷ name) t) rest) (c ∷ s))
          (followed_by (after_name name s) rest)
          (λ r x. record {
            tag = c ∷ x.tag;
            cut = ap (λ t. c ∷ t) x.cut;
            whole = rw (same, x.whole) refl;
          })
          (named-Exact name s))
    | inr other ↦ rw other tt
  ]

  named-bracketed :
      (name s : Text)
      → contains right_bracket s ≡ false
      → followed_by (after_name name s) rest ≡ none
  unfolding after_name
  named-bracketed [] s h = q.bracketed s h
  named-bracketed (a ∷ name) [] h = refl
  named-bracketed (a ∷ name) (c ∷ s) h = elim (Bool-cases (folded c == a)) [
    | inl same ↦ rw same (named-bracketed name s (ground arith))
    | inr other ↦ rw other refl
  ]

  or_else-none : (a b : Option Text) → or_else a b ≡ none → (a ≡ none) × (b ≡ none)
  or_else-none none b h = (refl, h)
  or_else-none (some r) b h = absurd (ground arith)

  or_else-Post :
      (P : Text → Type 0) (a b : Option Text) → Post P a → Post P b → Post P (or_else a b)
  or_else-Post P none b h k = k
  or_else-Post P (some r) b h k = h

  one_of-IsPattern : (names : List Text) → IsPattern (after_one_of names rest)
  unfolding after_one_of
  one_of-IsPattern [] = record {
    shorter = λ s. tt;
    closed = λ s t h. refl;
    exact = λ s. tt;
    bracketed = λ s h. refl;
  }
  one_of-IsPattern (name ∷ names) = record {
    shorter = λ s.
        or_else-Post (λ r. length r < length s) (followed_by (after_name name s) rest)
          (after_one_of names rest s) (named-shorter name s) ((one_of-IsPattern names).shorter s);
    closed = λ s t h.
        let split =
          or_else-none (followed_by (after_name name (s ++ t)) rest)
            (after_one_of names rest (s ++ t)) h in
        rw (named-closed name s t split.0) ((one_of-IsPattern names).closed s t split.1);
    exact = λ s.
        first_exact s (followed_by (after_name name s) rest) refl (named-Exact name s)
          ((one_of-IsPattern names).exact s);
    bracketed = λ s h. rw (named-bracketed name s h, (one_of-IsPattern names).bracketed s h) refl;
  }
    where
      first_exact :
          (s : Text) (here : Option Text)
          → followed_by (after_name name s) rest ≡ here
          → Post (Exact (λ t. followed_by (after_name name t) rest) s) here
          → Post (Exact (after_one_of names rest) s) (after_one_of names rest s)
          → Post
              (Exact (after_one_of (name ∷ names) rest) s)
              (or_else here (after_one_of names rest s))
      first_exact s (some r) e x later = record {
        tag = x.tag;
        cut = x.cut;
        whole = rw x.whole refl;
      }
      first_exact s none e x later =
          weaken-Post (Exact (after_one_of names rest) s)
            (Exact (after_one_of (name ∷ names) rest) s) (after_one_of names rest s)
            (λ r y. record {
              tag = y.tag;
              cut = y.cut;
              whole =
                  rw
                    (
                      named-closed name y.tag r
                          (ap (λ t. followed_by (after_name name t) rest) (sym y.cut) ∙ e),
                      y.whole,
                    )
                    refl;
            })
            later

pub open_tag-IsPattern : (is_word : ℕ → Bool) → IsPattern (open_tag is_word)
unfolding open_tag
open_tag-IsPattern is_word = record {
  shorter = shorter;
  closed = closed;
  exact = exact;
  bracketed = bracketed;
}
  where
    names : IsPattern (after_one_of reasoning_tags (open_end is_word))
    names = one_of-IsPattern (open_end is_word) (open_end-IsPattern is_word) reasoning_tags

    shorter : (s : Text) → Post (λ r. length r < length s) (open_tag is_word s)
    shorter [] = tt
    shorter (c ∷ s) =
        choice-Post (λ r. length r < suc (length s)) (c == left_bracket)
          (after_one_of reasoning_tags (open_end is_word) s) none
          (weaken-Post (λ r. length r < length s) (λ r. length r < suc (length s))
            (after_one_of reasoning_tags (open_end is_word) s) (λ r h. omega (arith, h))
            (names.shorter s))
          tt

    closed : (s t : Text) → open_tag is_word (s ++ t) ≡ none → open_tag is_word s ≡ none
    closed [] t h = refl
    closed (c ∷ s) t h = ground (arith, names.closed s t)

    exact : (s : Text) → Post (Exact (open_tag is_word) s) (open_tag is_word s)
    exact [] = tt
    exact (c ∷ s) = elim (Bool-cases (c == left_bracket)) [
      | inl bracket ↦ rw bracket (
          weaken-Post (Exact (after_one_of reasoning_tags (open_end is_word)) s)
            (Exact (open_tag is_word) (c ∷ s)) (after_one_of reasoning_tags (open_end is_word) s)
            (λ r x. record {
              tag = c ∷ x.tag;
              cut = ap (λ t. c ∷ t) x.cut;
              whole = rw (bracket, x.whole) refl;
            })
            (names.exact s))
      | inr other ↦ rw other tt
    ]

    bracketed : (s : Text) → contains right_bracket s ≡ false → open_tag is_word s ≡ none
    bracketed [] h = refl
    bracketed (c ∷ s) h = ground (arith, names.bracketed s)

pub close_tag-IsPattern : IsPattern close_tag
unfolding close_tag
close_tag-IsPattern = record {
  shorter = shorter;
  closed = closed;
  exact = exact;
  bracketed = bracketed;
}
  where
    names : IsPattern (after_one_of reasoning_tags close_end)
    names = one_of-IsPattern close_end close_end-IsPattern reasoning_tags

    shorter : (s : Text) → Post (λ r. length r < length s) (close_tag s)
    shorter [] = tt
    shorter (c ∷ []) = tt
    shorter (c ∷ d ∷ s) =
        choice-Post (λ r. length r < suc (suc (length s))) (c == left_bracket && d == b'/')
          (after_one_of reasoning_tags close_end s) none
          (weaken-Post (λ r. length r < length s) (λ r. length r < suc (suc (length s)))
            (after_one_of reasoning_tags close_end s) (λ r h. omega (arith, h)) (names.shorter s))
          tt

    closed : (s t : Text) → close_tag (s ++ t) ≡ none → close_tag s ≡ none
    closed [] t h = refl
    closed (c ∷ []) t h = refl
    closed (c ∷ d ∷ s) t h = ground (arith, names.closed s t)

    exact : (s : Text) → Post (Exact close_tag s) (close_tag s)
    exact [] = tt
    exact (c ∷ []) = tt
    exact (c ∷ d ∷ s) = elim (Bool-cases (c == left_bracket && d == b'/')) [
      | inl bracket ↦ rw bracket (
          weaken-Post (Exact (after_one_of reasoning_tags close_end) s)
            (Exact close_tag (c ∷ d ∷ s)) (after_one_of reasoning_tags close_end s)
            (λ r x. record {
              tag = c ∷ d ∷ x.tag;
              cut = ap (λ t. c ∷ d ∷ t) x.cut;
              whole = rw (bracket, x.whole) refl;
            })
            (names.exact s))
      | inr other ↦ rw other tt
    ]

    bracketed : (s : Text) → contains right_bracket s ≡ false → close_tag s ≡ none
    bracketed [] h = refl
    bracketed (c ∷ []) h = refl
    bracketed (c ∷ d ∷ s) h = ground (arith, names.bracketed s)

-- ===== src/Llm/Reasoning/Patterns/Ends.antt =====
-- The ends of the tags as patterns.
use wizard_w.Prelude.{
  contains, ℕ, suc, ◌≡◌, ◌<◌, refl, sym, ◌∙◌, ap, Bool, false, [], ◌∷◌, ◌++◌, none, some, arith,
  if◌then◌else◌, length, ◌==◌, nat_eq, Bool-cases, inl, inr,
}
use wizard_w.Prelude.Text.{Text, is_space}
use wizard_w.Llm.Reasoning.{right_bracket, after_bracket, open_end, close_end}
use wizard_w.Llm.Reasoning.Patterns.{Post, choice-Post, weaken-Post, Exact, IsPattern}

after_bracket-IsPattern : IsPattern after_bracket
unfolding after_bracket
after_bracket-IsPattern = record {
  shorter = shorter;
  closed = closed;
  exact = exact;
  bracketed = bracketed;
}
  where
    shorter : (s : Text) → Post (λ r. length r < length s) (after_bracket s)
    shorter [] = tt
    shorter (c ∷ s) =
        choice-Post (λ r. length r < suc (length s)) (c == right_bracket) (some s) (after_bracket s)
          (omega arith)
          (weaken-Post (λ r. length r < length s) (λ r. length r < suc (length s)) (after_bracket s)
            (λ r h. omega (arith, h)) (shorter s))

    closed : (s t : Text) → after_bracket (s ++ t) ≡ none → after_bracket s ≡ none
    closed [] t h = refl
    closed (c ∷ s) t h = ground (arith, closed s t)

    exact : (s : Text) → Post (Exact after_bracket s) (after_bracket s)
    exact [] = tt
    exact (c ∷ s) = elim (Bool-cases (c == right_bracket)) [
      | inl ends ↦
          rw ends
            (record { tag = c ∷ []; cut = refl; whole = unfold after_bracket in rw ends refl })
      | inr other ↦ rw other (
          weaken-Post (Exact after_bracket s) (Exact after_bracket (c ∷ s)) (after_bracket s)
            (λ r x. record {
              tag = c ∷ x.tag;
              cut = ap (λ t. c ∷ t) x.cut;
              whole = unfold after_bracket in rw (other, x.whole) refl;
            })
            (exact s))
    ]

    bracketed : (s : Text) → contains right_bracket s ≡ false → after_bracket s ≡ none
    bracketed [] h = refl
    bracketed (c ∷ s) h = ground (arith, bracketed s)

pub close_end-IsPattern : IsPattern close_end
unfolding close_end
close_end-IsPattern = record {
  shorter = shorter;
  closed = closed;
  exact = exact;
  bracketed = bracketed;
}
  where
    shorter : (s : Text) → Post (λ r. length r < length s) (close_end s)
    shorter [] = tt
    shorter (c ∷ s) =
        choice-Post (λ r. length r < suc (length s)) (c == right_bracket) (some s)
          (if is_space c then close_end s else none) (omega arith)
          (choice-Post (λ r. length r < suc (length s)) (is_space c) (close_end s) none
            (weaken-Post (λ r. length r < length s) (λ r. length r < suc (length s)) (close_end s)
              (λ r h. omega (arith, h)) (shorter s))
            tt)

    closed : (s t : Text) → close_end (s ++ t) ≡ none → close_end s ≡ none
    closed [] t h = refl
    closed (c ∷ s) t h = ground (arith, closed s t)

    exact : (s : Text) → Post (Exact close_end s) (close_end s)
    exact [] = tt
    exact (c ∷ s) = elim (Bool-cases (c == right_bracket)) [
      | inl ends ↦ rw ends (record { tag = c ∷ []; cut = refl; whole = rw ends refl })
      | inr other ↦ elim (Bool-cases (is_space c)) [
        | inl space ↦
            rw (other, space)
              (weaken-Post (Exact close_end s) (Exact close_end (c ∷ s)) (close_end s)
                (λ r x. record {
                  tag = c ∷ x.tag;
                  cut = ap (λ t. c ∷ t) x.cut;
                  whole = rw (other, space, x.whole) refl;
                })
                (exact s))
        | inr no_space ↦ rw (other, no_space) tt
      ]
    ]

    bracketed : (s : Text) → contains right_bracket s ≡ false → close_end s ≡ none
    bracketed [] h = refl
    bracketed (c ∷ s) h = ground (arith, bracketed s)

abbrev head_or : ℕ → Text → ℕ
head_or c [] = c
head_or c (d ∷ s) = d

pub open_end-IsPattern : (is_word : ℕ → Bool) → IsPattern (open_end is_word)
unfolding open_end
open_end-IsPattern is_word = record {
  shorter = shorter;
  closed = closed;
  exact = exact;
  bracketed = bracketed;
}
  where
    shorter : (s : Text) → Post (λ r. length r < length s) (open_end is_word s)
    shorter [] = tt
    shorter (c ∷ s) =
        choice-Post (λ r. length r < suc (length s)) (is_word c) none (after_bracket (c ∷ s)) tt
          (after_bracket-IsPattern.shorter (c ∷ s))

    closed : (s t : Text) → open_end is_word (s ++ t) ≡ none → open_end is_word s ≡ none
    closed [] t h = refl
    closed (c ∷ s) t h = ground (arith, after_bracket-IsPattern.closed (c ∷ s) t)

    exact_from :
        (c : ℕ) (s r : Text)
        → is_word c ≡ false
        → Exact after_bracket (c ∷ s) r
        → Exact (open_end is_word) (c ∷ s) r
    exact_from c s r no_word x = record {
      tag = x.tag;
      cut = x.cut;
      whole = whole_of x.tag x.cut x.whole;
    }
      where
        whole_of :
            (tag : Text)
            → c ∷ s ≡ tag ++ r
            → after_bracket tag ≡ some []
            → open_end is_word tag ≡ some []
        whole_of [] e h = absurd (unfold after_bracket in ground arith)
        whole_of (d ∷ tag) e h = rw (ap is_word (sym (ap (head_or c) e)) ∙ no_word) h

    exact : (s : Text) → Post (Exact (open_end is_word) s) (open_end is_word s)
    exact [] = tt
    exact (c ∷ s) = elim (Bool-cases (is_word c)) [
      | inl word ↦ rw word tt
      | inr no_word ↦ rw no_word (
          weaken-Post (Exact after_bracket (c ∷ s)) (Exact (open_end is_word) (c ∷ s))
            (after_bracket (c ∷ s)) (λ r. exact_from c s r no_word)
            (after_bracket-IsPattern.exact (c ∷ s)))
    ]

    bracketed : (s : Text) → contains right_bracket s ≡ false → open_end is_word s ≡ none
    bracketed [] h = refl
    bracketed (c ∷ s) h = ground (arith, after_bracket-IsPattern.bracketed (c ∷ s))

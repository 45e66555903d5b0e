-- ===== src/Llm/Reasoning/Unbroken.antt =====
-- No tag is cut where a chunk ends.
use wizard_w.Prelude.{
  ℕ, suc, ◌≡◌, ◌<◌, ◌≤◌, refl, sym, ◌∙◌, ap, Bool, true, false, [], ◌∷◌, ◌++◌, none, some, arith,
  contains, contains-append, length, length-append, leb, append_assoc, append-nil, nat_eq,
}
use wizard_w.Prelude.Text.{Text}
use wizard_w.Llm.Reasoning.{
  Pattern, left_bracket, right_bracket, search, max_tag_chars, last_bracket, split_at_marker,
}
use wizard_w.Llm.Reasoning.Patterns.{IsPattern}
use wizard_w.Llm.Reasoning.Searches.{nowhere, tail}

abbrev pub tag_around : Text → Text
tag_around h = left_bracket ∷ (h ++ (right_bracket ∷ []))

-- Of a text and what follows it: no tag of fewer than MAX_TAG_CHARS characters, with angle brackets at
-- its ends only, begins in the text.
abbrev pub Unbroken : Pattern → Text → Text → Type 0
Unbroken p x rest =
    (a h r : Text)
    → x ++ rest ≡ a ++ (tag_around h ++ r)
    → contains left_bracket h ≡ false
    → contains right_bracket h ≡ false
    → length (tag_around h) < max_tag_chars
    → p (tag_around h) ≡ some []
    → length x ≤ length a

abbrev head_or : ℕ → Text → ℕ
head_or c [] = c
head_or c (d ∷ s) = d

-- One of two beginnings of a text goes on to the other.
prefix_split :
    (s t a y : Text)
    → s ++ t ≡ a ++ y
    → length a ≤ length s
    → (u : Text) × (s ≡ a ++ u) × (u ++ t ≡ y)
prefix_split s t [] y e h = (s, refl, e)
prefix_split [] t (c ∷ a) y e h = absurd (omega (arith, h))
prefix_split (d ∷ s) t (c ∷ a) y e h =
    let rest = prefix_split s t a y (ap tail e) (omega (arith, h)) in
    (rest.0, ap (λ k. d ∷ k) rest.1 ∙ ap (λ k. k ∷ (a ++ rest.0)) (ap (head_or d) e), rest.2)

module _ (p : Pattern) (q : IsPattern p) where
  not_none : (h : Text) → p (tag_around h) ≡ some [] → p (tag_around h) ≡ none → ⊥
  not_none h e k = absurd (ground (arith, e, k))

  -- A text that nothing follows.
  pub last-Unbroken : (x : Text) → search p x ≡ none → Unbroken p x []
  last-Unbroken x quiet a h r e l g short is_tag = absurd (
      not_none h is_tag (
        q.closed (tag_around h) r
          (nowhere p q x quiet a (tag_around h ++ r) (sym (append-nil x) ∙ e))))

  pub cut-Unbroken :
      (x y future : Text)
      → ((a t : Text) → x ++ y ≡ a ++ t → length a < length x → p t ≡ none)
      → ((a u : Text)
          → x ++ y ≡ a ++ (left_bracket ∷ u)
          → length a < length x
          → contains left_bracket u ≡ false
          → contains right_bracket u ≡ false
          → suc (length u) < max_tag_chars
          → ⊥)
      → Unbroken p x (y ++ future)
  cut-Unbroken x y future early stuck a h r e l g short is_tag =
      by_order (leb (length x) (length a)) refl
    where
      whole_tag : (w : Text) → length a < length x → x ++ y ≡ a ++ (tag_around h ++ w) → ⊥
      whole_tag w k c =
          not_none h is_tag (q.closed (tag_around h) w (early a (tag_around h ++ w) c k))

      part_of_tag :
          (u w : Text) → length a < length x → x ++ y ≡ a ++ (left_bracket ∷ u) → h ≡ u ++ w → ⊥
      part_of_tag u w k c d =
          stuck a u c k
            (ground
              (arith, contains-append left_bracket u w, ap (contains left_bracket) (sym d) ∙ l))
            (ground
              (arith, contains-append right_bracket u w, ap (contains right_bracket) (sym d) ∙ g))
            (omega
              (arith, short, ap length d, length-append u w, length-append h (right_bracket ∷ [])))

      behind :
          (u : Text)
          → length a < length x
          → x ++ y ≡ a ++ (left_bracket ∷ u)
          → u ++ future ≡ (h ++ (right_bracket ∷ [])) ++ r
          → (b : Bool) → leb (length (h ++ (right_bracket ∷ []))) (length u) ≡ b
          → ⊥
      behind u k c d true o =
          let parts = prefix_split u future (h ++ (right_bracket ∷ [])) r d (ground (arith, o)) in
          whole_tag parts.0 k (c ∙ ap (λ t. a ++ (left_bracket ∷ t)) parts.1)
      behind u k c d false o =
          let parts =
            prefix_split h ((right_bracket ∷ []) ++ r) u future
              (sym (d ∙ append_assoc h (right_bracket ∷ []) r))
              (ground (arith, o, length-append h (right_bracket ∷ []))) in
          part_of_tag u parts.0 k c parts.1

      by_rest :
          (u : Text) → length a < length x → x ++ y ≡ a ++ u → u ++ future ≡ tag_around h ++ r → ⊥
      by_rest [] k c d = omega (arith, k, ap length c, length-append x y, length-append a [])
      by_rest (j ∷ u) k c d =
          behind u k (c ∙ ap (λ i. a ++ (i ∷ u)) (ap (head_or j) d)) (ap tail d)
            (leb (length (h ++ (right_bracket ∷ []))) (length u)) refl

      inside : length a < length x → ⊥
      inside k =
          let parts =
            prefix_split (x ++ y) future a (tag_around h ++ r) (append_assoc x y future ∙ e)
              (omega (arith, k, length-append x y)) in
          by_rest parts.0 k parts.1 parts.2

      by_order : (b : Bool) → leb (length x) (length a) ≡ b → length x ≤ length a
      by_order true k = ground (arith, k)
      by_order false k = absurd (inside (ground (arith, k)))

  -- The text before a match that needs a `>`.
  pub found-Unbroken :
      (x y future : Text)
      → ((a t : Text) → x ++ y ≡ a ++ t → length a < length x → p t ≡ none)
      → contains right_bracket y ≡ true
      → Unbroken p x (y ++ future)
  found-Unbroken x y future early ends = cut-Unbroken x y future early (λ a u c k l g short.
      let parts = prefix_split x y a (left_bracket ∷ u) c (omega (arith, k)) in
      by_start parts.0 a u k parts.1 parts.2 g)
    where
      by_start :
          (w a u : Text)
          → length a < length x
          → x ≡ a ++ w
          → w ++ y ≡ left_bracket ∷ u
          → contains right_bracket u ≡ false
          → ⊥
      by_start [] a u k c d g = omega (arith, k, ap length c, length-append a [])
      by_start (j ∷ w) a u k c d g = absurd (
          ground (
            arith,
            ends,
            g,
            contains-append right_bracket w y,
            ap (contains right_bracket) (ap tail d),
          ))

last_bracket-found :
    (a u : Text)
    → contains left_bracket u ≡ false
    → last_bracket (a ++ (left_bracket ∷ u)) ≡ some (a, left_bracket ∷ u)
unfolding last_bracket
last_bracket-found [] u l = rw (no_bracket u l) refl
  where
    no_bracket : (t : Text) → contains left_bracket t ≡ false → last_bracket t ≡ none
    no_bracket [] h = refl
    no_bracket (c ∷ t) h = rw (no_bracket t (ground arith)) (ground arith)
last_bracket-found (c ∷ a) u l = rw (last_bracket-found a u l) refl

-- What `_drain` keeps back is what may be a tag.
marker_at :
    (a u : Text)
    → contains left_bracket u ≡ false
    → contains right_bracket u ≡ false
    → suc (length u) < max_tag_chars
    → split_at_marker (a ++ (left_bracket ∷ u)) ≡ (a, left_bracket ∷ u)
unfolding split_at_marker
marker_at a u l g short = rw (split_at_marker, last_bracket-found a u l) (ground (arith, g, short))

pub drain-Unbroken :
    (p : Pattern)
    → IsPattern p
    → (s sent kept future : Text) → search p s ≡ none
    → split_at_marker s ≡ (sent, kept)
    → s ≡ sent ++ kept
    → Unbroken p sent (kept ++ future)
drain-Unbroken p q s sent kept future quiet split cut =
    cut-Unbroken p q sent kept future (λ a t c k. nowhere p q s quiet a t (cut ∙ c))
      (λ a u c k l g short.
        let same : sent ≡ a =
          ap (λ (o : Text × Text). o.0)
            (sym split ∙ (ap split_at_marker (cut ∙ c) ∙ marker_at a u l g short)) in
        omega (arith, k, ap length same))

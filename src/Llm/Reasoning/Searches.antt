-- ===== src/Llm/Reasoning/Searches.antt =====
-- What a search for a pattern finds, and what it leaves out.
use wizard_w.Prelude.{
  ℕ, ◌≡◌, ◌<◌, refl, sym, ◌∙◌, ap, suc, [], ◌∷◌, ◌++◌, Option, none, some, arith, length,
  length-append,
}
use wizard_w.Prelude.Text.{Text}
use wizard_w.Llm.Reasoning.{Pattern, found_later, found_here, search}
use wizard_w.Llm.Reasoning.Patterns.{Post, IsPattern}

-- Where a search found the pattern.
pub record Found (p : Pattern) (s before after : Text) : Type 0 where
  pub at : Text
  pub cut : s ≡ before ++ at
  pub matches : p at ≡ some after
  pub first : search p before ≡ none
  pub earliest : (a t : Text) → s ≡ a ++ t → length a < length before → p t ≡ none

abbrev pub tail : Text → Text
tail [] = []
tail (c ∷ s) = s

parts_of :
    (c : ℕ) (here : Option Text) (later : Option (Text × Text))
    → found_here here (found_later c later) ≡ none
    → (here ≡ none) × (later ≡ none)
parts_of c none none e = (refl, refl)
parts_of c none (some l) e = absurd (ground arith)
parts_of c (some r) l e = absurd (ground arith)

pub search-suffix : (p : Pattern) (s t : Text) → search p (s ++ t) ≡ none → search p t ≡ none
unfolding search
search-suffix p [] t h = h
search-suffix p (c ∷ s) t h =
    search-suffix p s t (parts_of c (p (c ∷ (s ++ t))) (search p (s ++ t)) h).1

module _ (p : Pattern) (q : IsPattern p) where
  not_empty : p [] ≡ none
  not_empty = none_of (p []) (q.shorter [])
    where
      none_of : (o : Option Text) → Post (λ r. length r < 0) o → o ≡ none
      none_of none h = refl
      none_of (some r) h = absurd (omega (arith, h))

  pub search-closed : (s t : Text) → search p (s ++ t) ≡ none → search p s ≡ none
  unfolding search
  search-closed [] t h = rw not_empty refl
  search-closed (c ∷ s) t h =
      let parts = parts_of c (p (c ∷ (s ++ t))) (search p (s ++ t)) h in
      rw (q.closed (c ∷ s) t parts.0, search-closed s t parts.1) refl

  pub head-none : (t : Text) → search p t ≡ none → p t ≡ none
  unfolding search
  head-none [] h = not_empty
  head-none (c ∷ t) h = (parts_of c (p (c ∷ t)) (search p t) h).0

  -- Where a search finds nothing, no end of the text matches.
  pub nowhere : (s : Text) → search p s ≡ none → (a t : Text) → s ≡ a ++ t → p t ≡ none
  nowhere s h a t e = head-none t (search-suffix p a t (ap (search p) (sym e) ∙ h))

  pub search-Found : (s : Text) → Post (λ o. Found p s o.0 o.1) (search p s)
  unfolding search
  search-Found [] = rw not_empty tt
  search-Found (c ∷ s) = found_of (p (c ∷ s)) refl (search p s) (search-Found s)
    where
      earlier :
          (before : Text)
          → ((a t : Text) → s ≡ a ++ t → length a < length before → p t ≡ none)
          → p (c ∷ s) ≡ none
          → (a t : Text) → c ∷ s ≡ a ++ t
          → length a < suc (length before)
          → p t ≡ none
      earlier before rest e [] t cut short = ap p (sym cut) ∙ e
      earlier before rest e (d ∷ a) t cut short = rest a t (ap tail cut) (omega (arith, short))

      found_of :
          (here : Option Text)
          → p (c ∷ s) ≡ here
          → (later : Option (Text × Text)) → Post (λ o. Found p s o.0 o.1) later
          → Post (λ o. Found p (c ∷ s) o.0 o.1) (found_here here (found_later c later))
      found_of (some r) e later f = record {
        at = c ∷ s;
        cut = refl;
        matches = e;
        first = rw not_empty refl;
        earliest = λ a t cut short. absurd (omega (arith, short));
      }
      found_of none e none f = tt
      found_of none e (some (before, after)) f = record {
        at = f.at;
        cut = ap (λ t. c ∷ t) f.cut;
        matches = f.matches;
        first =
            rw (q.closed (c ∷ before) f.at ((ap (λ t. p (c ∷ t)) (sym f.cut)) ∙ e), f.first) refl;
        earliest = λ a t cut short. earlier before f.earliest e a t cut short;
      }

  pub Found-shorter : (s before after : Text) → Found p s before after → length after < length s
  Found-shorter s before after f =
      rw (f.cut, length-append before f.at)
        (omega (arith, below (p f.at) f.matches (q.shorter f.at)))
    where
      below :
          (o : Option Text)
          → o ≡ some after
          → Post (λ r. length r < length f.at) o
          → length after < length f.at
      below o e h = rw e at h

-- ===== src/Llm/Reasoning/Held.antt =====
-- What the stream keeps back.
use wizard_w.Prelude.{
  ◌≡◌, refl, sym, ap, Bool, true, false, not, ◌&&◌, ◌||◌, [], ◌∷◌, ◌++◌, Option, none, some,
  if◌then◌else◌, contains, length, leb, append-nil, ◌==◌, nat_eq, Bool-cases, inl, inr,
}
use wizard_w.Prelude.Text.{Text}
use wizard_w.Llm.Reasoning.{
  left_bracket, right_bracket, max_tag_chars, last_bracket, split_at_marker,
}
use wizard_w.Llm.Reasoning.Patterns.{Post}

-- There is a result, and this holds of it.
abbrev pub Ends {ℓ} : {A : Type ℓ} → (A → Type 0) → Option A → Type 0
Ends P none = ⊥
Ends P (some a) = P a

-- Text that is kept back: nothing, or a `<` with no `>` behind it, shorter than a tag may be.
abbrev pub is_held : Text → Bool
is_held [] = true
is_held (c ∷ s) =
    c == left_bracket && not (leb max_tag_chars (length (c ∷ s)) || contains right_bracket (c ∷ s))

record Marked (s before marked : Text) : Type 0 where
  cut : s ≡ before ++ marked
  starts :
      (leb max_tag_chars (length marked) || contains right_bracket marked) ≡ false
      → is_held marked ≡ true

last_bracket-Marked : (s : Text) → Post (λ o. Marked s o.0 o.1) (last_bracket s)
unfolding last_bracket
last_bracket-Marked [] = tt
last_bracket-Marked (c ∷ s) = extended (last_bracket s) (last_bracket-Marked s)
  where
    extended :
        (o : Option (Text × Text))
        → Post (λ m. Marked s m.0 m.1) o
        → Post
            (λ m. Marked (c ∷ s) m.0 m.1)
            (elim o as (λ x. Option (Text × Text)) [
              | some (before, marked) ↦ some (c ∷ before, marked)
              | none ↦ if c == left_bracket then some ([], c ∷ s) else none
            ])
    extended (some (before, marked)) m = record { cut = ap (λ t. c ∷ t) m.cut; starts = m.starts }
    extended none m = elim (Bool-cases (c == left_bracket)) [
      | inl bracket ↦ rw bracket (record { cut = refl; starts = λ h. rw (bracket, h) refl })
      | inr other ↦ rw other tt
    ]

pub split_at_marker-cut :
    (s : Text)
    → (s ≡ (split_at_marker s).0 ++ (split_at_marker s).1) × (is_held (split_at_marker s).1 ≡ true)
unfolding split_at_marker
split_at_marker-cut s = split_of (last_bracket s) (last_bracket-Marked s)
  where
    split_of :
        (o : Option (Text × Text))
        → Post (λ m. Marked s m.0 m.1) o
        → let q : Text × Text = elim o as (λ x. Text × Text) [
          | none ↦ (s, [])
          | some (before, marked) ↦
              if leb max_tag_chars (length marked) || contains right_bracket marked
              then (s, [])
              else (before, marked)
        ] in
          (s ≡ q.0 ++ q.1) × (is_held q.1 ≡ true)
    split_of none m = (sym (append-nil s), refl)
    split_of (some (before, marked)) m =
        elim (Bool-cases (leb max_tag_chars (length marked) || contains right_bracket marked)) [
          | inl no_tag ↦ rw no_tag (sym (append-nil s), refl)
          | inr maybe ↦ rw maybe (m.cut, m.starts maybe)
        ]

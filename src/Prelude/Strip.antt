-- ===== src/Prelude/Strip.antt =====
-- Texts stripped of white space.
use wizard_w.Prelude.Tests.{Bool-cases}
use wizard_w.Prelude.Lists.{length}
use wizard_w.Prelude.Text.{Text, is_space, lstrip, strip}
use Prim.Native.Nat.{ℕ, ◌≤◌}
use mathlib.Core.Path.{◌≡◌, refl, sym, ap, ◌∙◌}
use mathlib.Core.Logic.{inl, inr}
use mathlib.Core.Bool.{false}
use mathlib.Core.List.{[], ◌∷◌, ◌++◌, reverse, reverse-append, reverse-reverse}
use native.Mathlib.Omega.{arith}

pub lstrip-suffix : (s : Text) → (before : Text) × (s ≡ before ++ lstrip s)
unfolding lstrip
lstrip-suffix [] = ([], refl)
lstrip-suffix (c ∷ s) = elim (Bool-cases (is_space c)) [
  | inl space ↦ rw space (c ∷ (lstrip-suffix s).0, ap (λ t. c ∷ t) (lstrip-suffix s).1)
  | inr other ↦ rw other ([], refl)
]

lstrip-lstrip : (s : Text) → lstrip (lstrip s) ≡ lstrip s
unfolding lstrip
lstrip-lstrip [] = refl
lstrip-lstrip (c ∷ s) = elim (Bool-cases (is_space c)) [
  | inl space ↦ rw space (lstrip-lstrip s)
  | inr other ↦ rw (other, other) refl
]

length-lstrip : (s : Text) → length (lstrip s) ≤ length s
unfolding lstrip
length-lstrip [] = omega arith
length-lstrip (c ∷ s) = ground (arith, length-lstrip s)

first_kept : (c : ℕ) (s : Text) → lstrip (c ∷ s) ≡ c ∷ s → is_space c ≡ false
unfolding lstrip
first_kept c s h = elim (Bool-cases (is_space c)) [
  | inl space ↦ absurd (omega (arith, ap length (rw space at h), length-lstrip s))
  | inr other ↦ other
]

-- A beginning of a text without white space in front has none either.
lstrip-beginning : (v w : Text) → lstrip (v ++ w) ≡ v ++ w → lstrip v ≡ v
unfolding lstrip
lstrip-beginning [] w h = refl
lstrip-beginning (c ∷ v) w h = rw (first_kept c (v ++ w) h) refl

pub strip-strip : (s : Text) → strip (strip s) ≡ strip s
unfolding strip
strip-strip s =
    let u = lstrip s in
    let v = lstrip (reverse u) in
    let back = lstrip-suffix (reverse u) in
    let cut : u ≡ reverse v ++ reverse back.0 =
      sym (reverse-reverse u) ∙ (ap reverse back.1 ∙ reverse-append back.0 v) in
    let front : lstrip (reverse v) ≡ reverse v =
      lstrip-beginning (reverse v) (reverse back.0)
        (ap lstrip (sym cut) ∙ (lstrip-lstrip s ∙ cut)) in
    ap (λ t. reverse (lstrip (reverse t))) front
    ∙ ap reverse (ap lstrip (reverse-reverse v) ∙ lstrip-lstrip (reverse u))

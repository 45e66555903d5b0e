-- ===== src/Prelude/Split.antt =====
-- Texts cut at a character, `s.split(c)`, and put together again, `sep.join(parts)`.
use wizard_w.Prelude.Tests.{nat_eq, ◌==◌, leb, if◌then◌else◌, Bool-cases}
use wizard_w.Prelude.Lists.{all, contains}
use wizard_w.Prelude.Text.{Text, text_eq}
use Prim.Native.Nat.{ℕ}
use mathlib.Core.Path.{◌≡◌, refl, ap}
use mathlib.Core.Logic.{inl, inr, ◌≢◌}
use mathlib.Core.Bool.{Bool, true, false, not, ◌&&◌, ◌||◌}
use mathlib.Core.List.{List, [], ◌∷◌, ◌++◌}
use native.Mathlib.Omega.{arith}

-- One more character before the first part.
abbrev pub onto_first : ℕ → List Text → List Text
onto_first c [] = (c ∷ []) ∷ []
onto_first c (p ∷ ps) = (c ∷ p) ∷ ps

-- `s.split(c)`
unfoldable pub split_on : ℕ → Text → List Text
split_on sep [] = [] ∷ []
split_on sep (c ∷ s) = if c == sep then [] ∷ split_on sep s else onto_first c (split_on sep s)

-- `sep.join(parts)`
unfoldable pub join : Text → List Text → Text
join sep [] = []
join sep (x ∷ []) = x
join sep (x ∷ y ∷ rest) = x ++ (sep ++ join sep (y ∷ rest))

abbrev pub first_part : List Text → Text
first_part [] = []
first_part (p ∷ ps) = p

onto_first-ne-nil : (c : ℕ) (ps : List Text) → onto_first c ps ≢ []
onto_first-ne-nil c [] h = cc
onto_first-ne-nil c (p ∷ ps) h = cc

split_on-ne-nil : (sep : ℕ) (s : Text) → split_on sep s ≢ []
unfolding split_on
split_on-ne-nil sep [] h = cc
split_on-ne-nil sep (c ∷ s) h = ground (arith, onto_first-ne-nil c (split_on sep s))

onto_first-append :
    (c : ℕ) (ps qs : List Text) → ps ≢ [] → onto_first c (ps ++ qs) ≡ onto_first c ps ++ qs
onto_first-append c [] qs h = absurd (h refl)
onto_first-append c (p ∷ ps) qs h = refl

pub split_on-append :
    (sep : ℕ) (s t : Text) → split_on sep (s ++ (sep ∷ t)) ≡ split_on sep s ++ split_on sep t
unfolding split_on
split_on-append sep [] t = ground (arith, nat_eq.decides sep sep)
split_on-append sep (c ∷ s) t = elim (Bool-cases (c == sep)) [
  | inl same ↦ rw same (ap (λ (ps : List Text). [] ∷ ps) (split_on-append sep s t))
  | inr other ↦ rw other (
      rw (split_on-append sep s t)
        (onto_first-append c (split_on sep s) (split_on sep t) (split_on-ne-nil sep s)))
]

-- A text without the separator is one part.
pub split_on_free : (sep : ℕ) (s : Text) → contains sep s ≡ false → split_on sep s ≡ s ∷ []
unfolding split_on
split_on_free sep [] h = refl
split_on_free sep (c ∷ s) h = ground (arith, split_on_free sep s)

pub split_on-join :
    (sep : ℕ) (p : Text) (ps : List Text)
    → all (λ q. not (contains sep q)) (p ∷ ps) ≡ true
    → split_on sep (join (sep ∷ []) (p ∷ ps)) ≡ p ∷ ps
unfolding join
split_on-join sep p [] h = split_on_free sep p (ground arith)
split_on-join sep p (q ∷ ps) h =
    rw (split_on-append sep p (join (sep ∷ []) (q ∷ ps)))
      (rw (split_on_free sep p (ground arith), split_on-join sep q ps (ground arith)) refl)

-- The line ends of `str.splitlines`.
abbrev pub is_line_end : ℕ → Bool
is_line_end c =
    (leb 10 c && leb c 13) || (leb 28 c && leb c 30) || c == 0x85 || c == 0x2028 || c == 0x2029

-- `s.splitlines()`: a line end at the end of a text opens no line, and a carriage return with the
-- line feed behind it is one.
unfoldable pub splitlines : Text → List Text
splitlines [] = []
splitlines (c ∷ []) = if is_line_end c then [] ∷ [] else (c ∷ []) ∷ []
splitlines (c ∷ d ∷ s) =
    let rest = splitlines (d ∷ s) in
    let behind = splitlines s in
    if c == 13 && d == 10
    then [] ∷ behind
    else if is_line_end c
    then [] ∷ rest
    else onto_first c rest

-- ===== src/Agent/State/Notes.antt =====
-- The findings and assumptions of an investigation.
use wizard_w.Prelude.{
  ◌≡◌, refl, false, ◌&&◌, not, List, [], ◌∷◌, ◌++◌, arith, contains, contains-append, Bool-cases,
  inl, inr,
}
use wizard_w.Prelude.Text.{Text, text_eq, strip}
use wizard_w.Agent.State.{
  Investigation, empty_investigation, is_empty, noted, note_finding, note_assumption,
}

-- No note is empty, and none occurs twice.
abbrev pub IsClean : List Text → Type 0
IsClean [] = Unit
IsClean (x ∷ xs) = (is_empty x ≡ false) × ((contains x xs ≡ false) × IsClean xs)

snoc-IsClean :
    (x : Text) (xs : List Text)
    → is_empty x ≡ false
    → contains x xs ≡ false
    → IsClean xs
    → IsClean (xs ++ (x ∷ []))
snoc-IsClean x [] full fresh v = (full, (refl, tt))
snoc-IsClean x (y ∷ ys) full fresh v = (
  v.0,
  (
    ground (arith, contains-append y ys (x ∷ []), text_eq.decides x y, text_eq.decides y x, v.1.0),
    snoc-IsClean x ys full (ground arith) v.1.1,
  ),
)

noted-IsClean : (text : Text) (notes : List Text) → IsClean notes → IsClean (noted text notes)
unfolding noted
noted-IsClean text notes v =
    elim (Bool-cases (not (is_empty (strip text)) && not (contains (strip text) notes))) [
      | inl new ↦ rw new (snoc-IsClean (strip text) notes (ground arith) (ground arith) v)
      | inr old ↦ rw old v
    ]

-- A note on an investigation, of either kind.
pub data Note : Type 0 where
  finding assumption : Text → Note

abbrev pub jot : Note → Investigation → Investigation
jot (finding text) i = note_finding text i
jot (assumption text) i = note_assumption text i

abbrev pub jot_all : List Note → Investigation → Investigation
jot_all [] i = i
jot_all (n ∷ ns) i = jot_all ns (jot n i)

jot_all-keeps :
    (ns : List Note) (i : Investigation)
    → IsClean i.findings
    → IsClean i.assumptions
    → IsClean (jot_all ns i).findings × IsClean (jot_all ns i).assumptions
unfolding note_finding note_assumption
jot_all-keeps [] i f a = (f, a)
jot_all-keeps (finding text ∷ ns) i f a =
    jot_all-keeps ns (note_finding text i) (noted-IsClean text i.findings f) a
jot_all-keeps (assumption text ∷ ns) i f a =
    jot_all-keeps ns (note_assumption text i) f (noted-IsClean text i.assumptions a)

-- Whatever is noted, however often and in whatever order, no finding and no assumption of an
-- investigation is empty or listed twice.
jot_all-IsClean :
    (ns : List Note)
    → IsClean (jot_all ns empty_investigation).findings
      × IsClean (jot_all ns empty_investigation).assumptions
jot_all-IsClean ns = jot_all-keeps ns empty_investigation tt tt

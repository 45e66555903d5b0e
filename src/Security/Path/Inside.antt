-- ===== src/Security/Path/Inside.antt =====
-- What an allowed path can reach: nothing outside the root that allowed it.
use wizard_w.Prelude.{
  ℕ, ◌≡◌, ◌⊎◌, inl, inr, refl, Bool, true, false, ◌&&◌, not, List, [], ◌∷◌, ◌++◌, arith,
  append_assoc, any, all, contains, ◌==◌, nat_eq, Bool-cases, contains-append, ◌∙◌,
}
use mathlib.Core.List.{reverse, reverse-append}
use wizard_w.Prelude.Text.{Text, text_eq, list_beq, starts_with}
use wizard_w.Prelude.Split.{split_on, join, onto_first, split_on-append, split_on-join}
use wizard_w.Security.Path.{
  slash, dot_dot, is_abs, push_component, push_all, components, initial_slashes, or_dot, normpath,
  target, rstrip_slashes, is_below, is_path_allowed,
}

abbrev is_free : Text → Bool
is_free p = not (contains slash p)

abbrev is_kept : Text → Bool
is_kept p = not (p == dot_dot) && not (contains slash p)

split_on-free : (s : Text) → all is_free (split_on slash s) ≡ true
unfolding split_on
split_on-free [] = refl
split_on-free (c ∷ s) = ground (arith, split_on-free s, onto_first-free c (split_on slash s))
  where
    onto_first-free :
        (c : ℕ) (ps : List Text)
        → (c == slash) ≡ false
        → all is_free ps ≡ true
        → all is_free (onto_first c ps) ≡ true
    onto_first-free c [] h k = ground arith
    onto_first-free c (p ∷ ps) h k = ground arith

push_component-kept :
    (comp : Text) (comps : List Text)
    → is_free comp ≡ true
    → all is_kept comps ≡ true
    → all is_kept (push_component true comp comps) ≡ true
unfolding push_component
push_component-kept comp [] f k = ground arith
push_component-kept comp (top ∷ comps) f k = ground arith

push_all-kept :
    (parts comps : List Text)
    → all is_free parts ≡ true
    → all is_kept comps ≡ true
    → all is_kept (push_all true parts comps) ≡ true
unfolding push_all
push_all-kept [] comps f k = k
push_all-kept (p ∷ parts) comps f k =
    push_all-kept parts (push_component true p comps) (ground arith)
      (push_component-kept p comps (ground arith) k)

all-append {ℓ} :
    {A : Type ℓ} (q : A → Bool) (xs ys : List A) → all q (xs ++ ys) ≡ (all q xs && all q ys)
all-append q [] ys = refl
all-append q (x ∷ xs) ys = ground (arith, all-append q xs ys)

all-reverse {ℓ} :
    {A : Type ℓ} (q : A → Bool) (xs : List A) → all q xs ≡ true → all q (reverse xs) ≡ true
all-reverse q [] h = refl
all-reverse q (x ∷ xs) h =
    rw (reverse-append (x ∷ []) xs)
      (rw (all-append q (reverse xs) (reverse (x ∷ []))) (ground (arith, all-reverse q xs)))

components-kept : (path : Text) → is_abs path ≡ true → all is_kept (components path) ≡ true
unfolding components
components-kept path h = rw h (
    all-reverse is_kept (push_all true (split_on slash path) [])
      (push_all-kept (split_on slash path) [] (split_on-free path) refl))

kept-free : (ps : List Text) → all is_kept ps ≡ true → all is_free ps ≡ true
kept-free [] h = refl
kept-free (p ∷ ps) h = ground (arith, kept-free ps)

kept-absent : (ps : List Text) → all is_kept ps ≡ true → contains dot_dot ps ≡ false
kept-absent [] h = refl
kept-absent (p ∷ ps) h = ground (arith, kept-absent ps)

-- The components of a joined path are those that it was joined of.
join-absent :
    (ps : List Text)
    → all is_kept ps ≡ true
    → contains dot_dot (split_on slash (join (slash ∷ []) ps)) ≡ false
join-absent [] h = unfold join split_on list_beq in refl
join-absent (p ∷ ps) h =
    rw (split_on-join slash p ps (kept-free (p ∷ ps) h)) (kept-absent (p ∷ ps) h)

slashes-absent :
    (path s : Text)
    → contains dot_dot (split_on slash s) ≡ false
    → contains dot_dot (split_on slash (initial_slashes path ++ s)) ≡ false
unfolding initial_slashes split_on list_beq
slashes-absent path s h = ground arith

-- A normalised absolute path climbs nowhere.
pub normpath-absent :
    (path : Text) → is_abs path ≡ true → contains dot_dot (split_on slash (normpath path)) ≡ false
unfolding normpath
normpath-absent path h =
    or_dot-absent (initial_slashes path ++ join (slash ∷ []) (components path)) (
      slashes-absent path (join (slash ∷ []) (components path))
        (join-absent (components path) (components-kept path h)))
  where
    or_dot-absent :
        (s : Text)
        → contains dot_dot (split_on slash s) ≡ false
        → contains dot_dot (split_on slash (or_dot s)) ≡ false
    or_dot-absent [] h = unfold split_on list_beq in refl
    or_dot-absent (c ∷ s) h = h

pub starts_with-rest : (p s : Text) → starts_with p s ≡ true → (rest : Text) × (s ≡ p ++ rest)
unfolding starts_with
starts_with-rest [] s h = (s, refl)
starts_with-rest (c ∷ p) [] h = absurd (ground arith)
starts_with-rest (c ∷ p) (d ∷ s) h =
    let (rest, e) = starts_with-rest p s (ground arith) in
    (rest, ground (arith, nat_eq.decides d c))

pub any-witness :
    (q : Text → Bool) (xs : List Text)
    → any q xs ≡ true
    → (x : Text) × (contains x xs ≡ true) × (q x ≡ true)
any-witness q [] h = absurd (ground arith)
any-witness q (x ∷ xs) h = elim (Bool-cases (q x)) [
  | inl here ↦ (x, ground (arith, text_eq.decides x x), here)
  | inr there ↦ let (y, member, found) = any-witness q xs (ground arith) in (y, ground arith, found)
]

-- A text after a slash has the components of the whole text.
tail-absent :
    (before rest : Text)
    → contains dot_dot (split_on slash (before ++ (slash ∷ rest))) ≡ false
    → contains dot_dot (split_on slash rest) ≡ false
tail-absent before rest h = ground (
  arith,
  split_on-append slash before rest,
  contains-append dot_dot (split_on slash before) (split_on slash rest),
)

below-inside :
    (path root : Text)
    → is_abs path ≡ true
    → is_below (normpath path) root ≡ true
    → (normpath path ≡ rstrip_slashes root)
      ⊎ ((rest : Text) × (normpath path ≡ rstrip_slashes root ++ (slash ∷ rest))
          × (contains dot_dot (split_on slash rest) ≡ false))
unfolding is_below
below-inside path root a h = elim (Bool-cases (normpath path == rstrip_slashes root)) [
  | inl same ↦ inl ((text_eq.decides (normpath path) (rstrip_slashes root)).0 same)
  | inr other ↦
      let (rest, e) =
        starts_with-rest (rstrip_slashes root ++ (slash ∷ [])) (normpath path) (ground arith) in
      let e' : normpath path ≡ rstrip_slashes root ++ (slash ∷ rest) =
        e ∙ append_assoc (rstrip_slashes root) (slash ∷ []) rest in
      inr (rest, e', tail-absent (rstrip_slashes root) rest (rw (← e') (normpath-absent path a)))
]

-- Where the target of a path is absolute and the path is allowed, its normal form is a root that the
-- guard was given (without the slashes at its end), or lies below one by a rest in which no component
-- is `..`.
pub is_path_allowed-inside :
    (roots : List Text) (raw_path : Text)
    → is_abs (target roots raw_path) ≡ true
    → is_path_allowed roots raw_path ≡ true
    → (root : Text) × (contains root roots ≡ true)
      × ((normpath (target roots raw_path) ≡ rstrip_slashes root)
          ⊎ ((rest : Text) × (normpath (target roots raw_path)
                ≡ rstrip_slashes root ++ (slash ∷ rest))
              × (contains dot_dot (split_on slash rest) ≡ false)))
unfolding is_path_allowed
is_path_allowed-inside roots raw_path a h =
    let (root, member, below) =
      any-witness (is_below (normpath (target roots raw_path))) roots (ground arith) in
    (root, member, below-inside (target roots raw_path) root a below)

-- ===== src/TableKey/Safe.antt =====
-- A table key can be a file name and the key of a Python dictionary.
use wizard_w.Prelude.{
  ℕ, ◌≡◌, ◌≢◌, refl, String, Bool, true, false, ◌||◌, [], ◌∷◌, some, arith, all, ◌==◌, nat_eq,
}
use wizard_w.Prelude.Text.{Text, codes, normalised}
use wizard_w.TableKey.{
  is_word, squeeze, lstrip_underscores, rstrip_underscores, or_table, table_key, stem,
}

abbrev pub is_key_char : ℕ → Bool
is_key_char c = is_word c || c == b'_'

abbrev pub starts_with_underscore : Text → Bool
starts_with_underscore [] = false
starts_with_underscore (c ∷ s) = c == b'_'

abbrev pub ends_with_underscore : Text → Bool
ends_with_underscore [] = false
ends_with_underscore (c ∷ []) = c == b'_'
ends_with_underscore (c ∷ d ∷ s) = ends_with_underscore (d ∷ s)

squeeze-all : (b : Bool) (s : Text) → all is_key_char (squeeze b s) ≡ true
unfolding squeeze
squeeze-all b [] = refl
squeeze-all b (c ∷ s) = ground (arith, squeeze-all true s, squeeze-all false s)

lstrip-all : (s : Text) → all is_key_char s ≡ true → all is_key_char (lstrip_underscores s) ≡ true
unfolding lstrip_underscores
lstrip-all [] h = refl
lstrip-all (c ∷ s) h = ground (arith, lstrip-all s)

rstrip-all : (s : Text) → all is_key_char s ≡ true → all is_key_char (rstrip_underscores s) ≡ true
unfolding rstrip_underscores
rstrip-all [] h = refl
rstrip-all (c ∷ s) h = ground (arith, rstrip-all s)

lstrip-start : (s : Text) → starts_with_underscore (lstrip_underscores s) ≡ false
unfolding lstrip_underscores
lstrip-start [] = refl
lstrip-start (c ∷ s) = ground (arith, lstrip-start s)

rstrip-start :
    (s : Text)
    → starts_with_underscore s ≡ false
    → starts_with_underscore (rstrip_underscores s) ≡ false
unfolding rstrip_underscores
rstrip-start [] h = refl
rstrip-start (c ∷ s) h = ground arith

rstrip-end : (s : Text) → ends_with_underscore (rstrip_underscores s) ≡ false
unfolding rstrip_underscores
rstrip-end [] = refl
rstrip-end (c ∷ s) = ground (arith, rstrip-end s)

or_table-safe :
    (s : Text)
    → all is_key_char s ≡ true
    → starts_with_underscore s ≡ false
    → ends_with_underscore s ≡ false
    → (or_table s ≢ [])
      × (all is_key_char (or_table s) ≡ true)
      × (starts_with_underscore (or_table s) ≡ false)
      × (ends_with_underscore (or_table s) ≡ false)
unfolding or_table
or_table-safe [] h i j = ((λ e. ground arith), refl, refl, refl)
or_table-safe (c ∷ s) h i j = ((λ e. ground arith), h, i, j)

-- The key of any dataset name, with slashes, dots and white space in it or empty, is not empty, has
-- only lower-case letters, digits and underscores, and neither starts nor ends with an underscore.
pub table_key_is_safe :
    (name : String)
    → (table_key name ≢ [])
      × (all is_key_char (table_key name) ≡ true)
      × (starts_with_underscore (table_key name) ≡ false)
      × (ends_with_underscore (table_key name) ≡ false)
unfolding table_key
table_key_is_safe name =
    let s = squeeze false (normalised (some (stem (codes name)))) in
    or_table-safe (rstrip_underscores (lstrip_underscores s))
      (rstrip-all (lstrip_underscores s)
        (lstrip-all s (squeeze-all false (normalised (some (stem (codes name)))))))
      (rstrip-start (lstrip_underscores s) (lstrip-start s)) (rstrip-end (lstrip_underscores s))

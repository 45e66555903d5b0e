-- ===== src/Llm/Pricing/Longest.antt =====
-- The price of a model is that of the longest key of the table which its name contains.
use mathlib.Core.Path.{subst}
use wizard_w.Prelude.{
  ℕ, ◌≤◌, ◌≡◌, refl, ap, true, false, ◌||◌, List, [], ◌∷◌, none, some, arith, leb, length, ◌==◌,
  Option-cases, Bool-cases, inl, inr, ◌↔◌, contains, beq_self, ◌∙◌, ◌≢◌,
}
use wizard_w.Prelude.Dict.{Dict, lookup, keys}
use wizard_w.Prelude.Text.{Text, text_eq, list_beq, normalised, starts_with, occurs}
use wizard_w.Llm.Pricing.{Price, pricing, place, longest_first, first_match, price_in, price_for}

-- No text of the list is longer than `n`.
abbrev Below : ℕ → List Text → Type 0
Below n xs = (k : Text) → contains k xs ≡ true → length k ≤ n

abbrev Sorted : List Text → Type 0
Sorted [] = Unit
Sorted (x ∷ xs) = Below (length x) xs × Sorted xs

contains-place : (k x : Text) (xs : List Text) → contains k (place x xs) ≡ (x == k || contains k xs)
unfolding place
contains-place k x [] = refl
contains-place k x (y ∷ ys) = ground (arith, contains-place k x ys)

contains-longest_first : (k : Text) (xs : List Text) → contains k (longest_first xs) ≡ contains k xs
unfolding longest_first
contains-longest_first k [] = refl
contains-longest_first k (x ∷ xs) =
    ground (arith, contains-place k x (longest_first xs), contains-longest_first k xs)

place-Sorted : (x : Text) (xs : List Text) → Sorted xs → Sorted (place x xs)
unfolding place
place-Sorted x [] v = (λ k h. ground arith, tt)
place-Sorted x (y ∷ ys) v = elim (Bool-cases (leb (length y) (length x))) [
  | inl before ↦
      rw before ((λ k h. ground (arith, text_eq.decides y k, v.0 k, λ (e : y ≡ k). ap length e)), v)
  | inr after ↦ rw after (
    (λ k h.
        ground
          (arith, contains-place k x ys, text_eq.decides x k, v.0 k, λ (e : x ≡ k). ap length e)),
    place-Sorted x ys v.1,
  )
]

longest_first-Sorted : (xs : List Text) → Sorted (longest_first xs)
unfolding longest_first
longest_first-Sorted [] = tt
longest_first-Sorted (x ∷ xs) = place-Sorted x (longest_first xs) (longest_first-Sorted xs)

-- A prefix of a name occurs in it.
occurs-prefix :
    (prefix name : Text) → (starts_with prefix name || occurs prefix name) ≡ occurs prefix name
unfolding starts_with occurs
occurs-prefix prefix [] = ground arith
occurs-prefix prefix (c ∷ s) = ground arith

-- What it is to be the longest match of a name among some keys.
abbrev pub IsLongestMatch : Text → List Text → Text → Type 0
IsLongestMatch name xs best =
    (contains best xs ≡ true)
    × (occurs best name ≡ true)
    × ((k : Text) → contains k xs ≡ true → occurs k name ≡ true → length k ≤ length best)

first_match-IsLongestMatch :
    (name best : Text) (xs : List Text)
    → Sorted xs
    → first_match name xs ≡ some best
    → IsLongestMatch name xs best
unfolding first_match
first_match-IsLongestMatch name best [] v found = absurd (ground arith)
first_match-IsLongestMatch name best (x ∷ xs) v found = elim (Bool-cases (occurs x name)) [
  | inl hit ↦
      let e : x ≡ best = ground (arith, occurs-prefix x name) in
      subst (λ b. IsLongestMatch name (x ∷ xs) b) e
        (
          ground (arith, beq_self x),
          hit,
          λ k h m. ground (arith, text_eq.decides x k, v.0 k, λ (e : x ≡ k). ap length e),
        )
  | inr miss ↦
      let found' : first_match name xs ≡ some best = ground (arith, occurs-prefix x name) in
      let (member, match, longest) = first_match-IsLongestMatch name best xs v.1 found' in
      (
        ground arith,
        match,
        λ k h m.
            ground
              (arith, text_eq.decides x k, longest k, λ (e : x ≡ k). ap (λ y. occurs y name) e),
      )
]

first_match-none :
    (name k : Text) (xs : List Text)
    → first_match name xs ≡ none
    → contains k xs ≡ true
    → occurs k name ≡ false
unfolding first_match
first_match-none name k [] h member = absurd (ground arith)
first_match-none name k (x ∷ xs) h member = ground (
  arith,
  occurs-prefix x name,
  text_eq.decides x k,
  first_match-none name k xs,
  λ (e : x ≡ k). ap (λ y. occurs y name) e,
)

-- Every key of the table has a price.
lookup_key : (k : Text) (d : Dict Text Price) → contains k (keys d) ≡ true → lookup k d ≢ none
unfolding lookup
lookup_key k [] member h = ground arith
lookup_key k ((j, v) ∷ d) member h = ground (arith, lookup_key k d)

price_in-IsLongestMatch :
    (table : Dict Text Price) (name : Text) (price : Price)
    → price_in table name ≡ some price
    → (best : Text) × (lookup best table ≡ some price) × IsLongestMatch name (keys table) best
unfolding price_in
price_in-IsLongestMatch table [] price found = absurd (ground arith)
price_in-IsLongestMatch table (c ∷ rest) price found =
    elim (Option-cases (first_match (c ∷ rest) (longest_first (keys table)))) [
      | inl none_found ↦ absurd (ground arith)
      | inr (best, first) ↦
          let (member, match, longest) =
            first_match-IsLongestMatch (c ∷ rest) best (longest_first (keys table))
              (longest_first-Sorted (keys table)) first in
          (
            best,
            ground arith,
            (
              ground (arith, contains-longest_first best (keys table)),
              match,
              λ k h m. longest k (contains-longest_first k (keys table) ∙ h) m,
            ),
          )
    ]

occurs_nil : (k : Text) → k ≢ [] → occurs k [] ≡ false
unfolding starts_with occurs
occurs_nil [] h = absurd (h refl)
occurs_nil (c ∷ k) h = refl

price_in-none :
    (table : Dict Text Price) (name : Text)
    → contains [] (keys table) ≡ false
    → (price_in table name ≡ none)
      ↔ ((k : Text) → contains k (keys table) ≡ true → occurs k name ≡ false)
unfolding price_in
price_in-none table [] proper = (
  (λ h k member. occurs_nil k (λ e. ground (arith, ap (λ x. contains x (keys table)) e))),
  λ h. refl,
)
price_in-none table (c ∷ rest) proper = (
  (λ h k member. elim (Option-cases (first_match (c ∷ rest) (longest_first (keys table)))) [
    | inl none_found ↦
        first_match-none (c ∷ rest) k (longest_first (keys table)) none_found
          (contains-longest_first k (keys table) ∙ member)
    | inr (best, first) ↦
        let (found, _, _) =
          first_match-IsLongestMatch (c ∷ rest) best (longest_first (keys table))
            (longest_first-Sorted (keys table)) first in
        absurd (
          lookup_key best table (ground (arith, contains-longest_first best (keys table)))
            (ground arith))
  ]),
  λ h. elim (Option-cases (first_match (c ∷ rest) (longest_first (keys table)))) [
    | inl none_found ↦ ground arith
    | inr (best, first) ↦
        let (member, match, _) =
          first_match-IsLongestMatch (c ∷ rest) best (longest_first (keys table))
            (longest_first-Sorted (keys table)) first in
        ground (arith, h best, contains-longest_first best (keys table))
  ],
)

-- A price that is found is that of a key of the table which the normalised name of the model
-- contains, and no key that the name contains is longer.
pub price_for-IsLongestMatch :
    (model : Text) (price : Price)
    → price_for model ≡ some price
    → (best : Text) × (lookup best pricing ≡ some price)
      × IsLongestMatch (normalised (some model)) (keys pricing) best
unfolding price_for
price_for-IsLongestMatch model price found =
    price_in-IsLongestMatch pricing (normalised (some model)) price found

-- No price is found exactly when the normalised name of the model contains no key of the table.
pub price_for-none :
    (model : Text)
    → (price_for model ≡ none)
      ↔ ((k : Text) → contains k (keys pricing) ≡ true → occurs k (normalised (some model)) ≡ false)
unfolding price_for
price_for-none model = price_in-none pricing (normalised (some model)) (unfold list_beq in refl)

-- ===== src/Skills/Promotion/Rows.antt =====
-- The rows of the table under its reads and its writes.
use wizard_w.Prelude.{
  ℕ, zero, suc, ◌≡◌, refl, Bool, true, false, ◌||◌, List, [], ◌∷◌, Option, none, some, arith,
  if◌then◌else◌, filter, all, ltb, leb, ◌==◌, nat_eq, Bool-cases, inl, inr, ap,
}
use mathlib.Core.Path.{subst}
use wizard_w.Prelude.Text.{text_eq}
use wizard_w.Skills.Candidates.{
  Row, Table, is_settled, by_activity, newest_first, update_row, find_row,
}
use wizard_w.Skills.Promotion.{Match, unmatched, matched, failed, nth}

-- No id occurs twice.
abbrev pub UniqueIds : List Row → Type 0
UniqueIds [] = Unit
UniqueIds (r ∷ rows) = (find_row r.id rows ≡ none) × UniqueIds rows

abbrev pub IsFresh : Table → Type 0
IsFresh t = all (λ (r : Row). ltb r.id t.next_id) t.rows ≡ true

-- The row of an id has reached the threshold, or the user has settled it.
abbrev pub is_spent : ℕ → Option Row → Bool
is_spent threshold none = false
is_spent threshold (some r) = is_settled r || leb threshold r.occurrences

abbrev pub map_row : (Row → Row) → Option Row → Option Row
map_row f none = none
map_row f (some r) = some (f r)

module _ (f : Row → Row) (keeps : (r : Row) → (f r).id ≡ r.id) where
  pub find_row-update :
      (id j : ℕ) (rows : List Row)
      → find_row j (update_row id f rows)
        ≡ (if id == j then map_row f (find_row j rows) else find_row j rows)
  unfolding find_row update_row
  find_row-update id j [] = ground arith
  find_row-update id j (r ∷ rows) = ground (
    arith,
    find_row-update id j rows,
    keeps r,
    nat_eq.decides r.id id,
    nat_eq.decides r.id j,
    nat_eq.decides id j,
  )

  pub update-UniqueIds :
      (id : ℕ) (rows : List Row) → UniqueIds rows → UniqueIds (update_row id f rows)
  unfolding update_row
  update-UniqueIds id [] u = tt
  update-UniqueIds id (r ∷ rows) u = elim (Bool-cases (r.id == id)) [
    | inl same ↦
        rw same (
          rw (keeps r) (ground (arith, find_row-update id r.id rows)),
          update-UniqueIds id rows u.1,
        )
    | inr differs ↦
        rw differs (ground (arith, find_row-update id r.id rows), update-UniqueIds id rows u.1)
  ]

  pub update-fresh :
      (id n : ℕ) (rows : List Row)
      → all (λ (r : Row). ltb r.id n) rows ≡ true
      → all (λ (r : Row). ltb r.id n) (update_row id f rows) ≡ true
  unfolding update_row
  update-fresh id n [] h = refl
  update-fresh id n (r ∷ rows) h = ground (arith, update-fresh id n rows, keeps r)

  pub update-spent :
      (threshold id j : ℕ) (rows : List Row)
      → ((r : Row) → is_spent threshold (some r) ≡ true → is_spent threshold (some (f r)) ≡ true)
      → is_spent threshold (find_row j rows) ≡ true
      → is_spent threshold (find_row j (update_row id f rows)) ≡ true
  update-spent threshold id j rows grows h =
      rw (find_row-update id j rows) (spent_by_cases (id == j) (find_row j rows) h)
    where
      spent_by_cases :
          (b : Bool) (o : Option Row)
          → is_spent threshold o ≡ true
          → is_spent threshold (if b then map_row f o else o) ≡ true
      spent_by_cases b none k = absurd (ground arith)
      spent_by_cases true (some r) k = grows r k
      spent_by_cases false (some r) k = k

-- What holds of each row, through the reading of candidates.
abbrev pub Each : (Row → Type 0) → List Row → Type 0
Each P [] = Unit
Each P (r ∷ rows) = P r × Each P rows

abbrev row_of : Row → Match → Row
row_of q (matched r) = r
row_of q unmatched = q
row_of q failed = q

module _ (P : Row → Type 0) where
  pub Each-filter : (q : Row → Bool) (rows : List Row) → Each P rows → Each P (filter q rows)
  Each-filter q [] h = tt
  Each-filter q (r ∷ rows) h = elim (Bool-cases (q r)) [
    | inl in_it ↦ rw in_it (h.0, Each-filter q rows h.1)
    | inr out ↦ rw out (Each-filter q rows h.1)
  ]

  Each-by_activity : (r : Row) (rows : List Row) → P r → Each P rows → Each P (by_activity r rows)
  unfolding by_activity
  Each-by_activity r [] p h = (p, tt)
  Each-by_activity r (q ∷ rows) p h = elim (Bool-cases (leb q.last_seen r.last_seen)) [
    | inl first ↦ rw first (p, h)
    | inr later ↦ rw later (h.0, Each-by_activity r rows p h.1)
  ]

  pub Each-newest_first : (rows : List Row) → Each P rows → Each P (newest_first rows)
  unfolding newest_first
  Each-newest_first [] h = tt
  Each-newest_first (r ∷ rows) h =
      Each-by_activity r (newest_first rows) h.0 (Each-newest_first rows h.1)

  pub Each-nth : (i : ℕ) (rows : List Row) (r : Row) → Each P rows → nth i rows ≡ matched r → P r
  unfolding nth
  Each-nth i [] r h e = absurd (ground arith)
  Each-nth zero (q ∷ rows) r h e = subst P (ap (row_of q) e) h.0
  Each-nth (suc i) (q ∷ rows) r h e = Each-nth i rows r h.1 e

abbrev pub IsFound : List Row → Row → Type 0
IsFound rows r = find_row r.id rows ≡ some r

Each-cons :
    (q : Row) (rows xs : List Row)
    → find_row q.id rows ≡ none
    → Each (IsFound rows) xs
    → Each (IsFound (q ∷ rows)) xs
unfolding find_row
Each-cons q rows [] absent h = tt
Each-cons q rows (x ∷ xs) absent h =
    (ground (arith, nat_eq.decides q.id x.id), Each-cons q rows xs absent h.1)

pub Each-IsFound : (rows : List Row) → UniqueIds rows → Each (IsFound rows) rows
Each-IsFound [] u = tt
Each-IsFound (r ∷ rows) u = (
  unfold find_row in ground (arith, nat_eq.decides r.id r.id),
  Each-cons r rows rows u.0 (Each-IsFound rows u.1),
)

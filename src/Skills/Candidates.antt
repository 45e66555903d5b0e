-- ===== src/Skills/Candidates.antt =====
-- The table `skill_candidates` of backend/src/core/database.py and the calls that read and write it.
-- `healthy` says whether the database answers: a call that fails returns what its `except` returns.
use wizard_w.Prelude.{
  ℕ, ◌+◌, Bool, true, false, ◌&&◌, ◌||◌, not, List, [], ◌∷◌, ◌++◌, Option, none, some,
  if◌then◌else◌, filter, leb, ◌==◌, nat_eq,
}
use wizard_w.Prelude.Text.{Text, text_eq, strip}

-- `KIND_RECURRING` and `KIND_RECOVERY`
pub data Kind : Type 0 where
  recurring recovery : Kind

abbrev pub same_kind : Kind → Kind → Bool
same_kind recurring recurring = true
same_kind recovery recovery = true
same_kind _ _ = false

pub record Row : Type 0 where
  pub id : ℕ
  pub kind : Kind
  pub instruction : Text
  pub columns : List Text
  pub occurrences : ℕ
  pub first_seen : ℕ
  pub last_seen : ℕ
  pub plan : Text
  pub code_text : Text
  pub promoted_to : Option Text
  pub dismissed : Bool

-- The rows, and the id that AUTOINCREMENT gives next.
pub record Table : Type 0 where
  pub rows : List Row
  pub next_id : ℕ

abbrev pub empty_table : Table
empty_table = record { rows = []; next_id = 1 }

abbrev pub is_some {ℓ} : {A : Type ℓ} → Option A → Bool
is_some none = false
is_some (some a) = true

abbrev pub is_settled : Row → Bool
is_settled r = r.dismissed || is_some r.promoted_to

-- `ORDER BY last_seen DESC`
unfoldable pub by_activity : Row → List Row → List Row
by_activity r [] = r ∷ []
by_activity r (s ∷ rows) =
    if leb s.last_seen r.last_seen then r ∷ s ∷ rows else s ∷ by_activity r rows

unfoldable pub newest_first : List Row → List Row
unfolding by_activity
newest_first [] = []
newest_first (r ∷ rows) = by_activity r (newest_first rows)

abbrev pub kind_matches : Option Kind → Row → Bool
kind_matches none r = true
kind_matches (some kind) r = same_kind r.kind kind

unfoldable pub get_skill_candidates : Bool → Option Kind → Bool → Table → List Row
unfolding newest_first
get_skill_candidates healthy kind include_settled t =
    if healthy
    then newest_first
        (filter (λ r. kind_matches kind r && (include_settled || not (is_settled r))) t.rows)
    else []

unfoldable pub add_skill_candidate :
    Bool → Kind → Text → List Text → Text → Text → ℕ → Table → ℕ × Table
unfolding strip
add_skill_candidate healthy kind instruction columns plan code now t =
    if healthy
    then (
      t.next_id,
      record {
        next_id = t.next_id + 1;
        rows =
            t.rows
            ++ (record {
              id = t.next_id;
              kind = kind;
              instruction = strip instruction;
              columns = columns;
              occurrences = 1;
              first_seen = now;
              last_seen = now;
              plan = plan;
              code_text = code;
              promoted_to = none;
              dismissed = false;
            }
                ∷ []);
      },
    )
    else (0, t)

-- `COALESCE(NULLIF(?, ''), column)`
abbrev pub or_kept : Text → Text → Text
or_kept [] kept = kept
or_kept (c ∷ s) kept = c ∷ s

unfoldable pub bumped : Text → Text → ℕ → Row → Row
bumped plan code now r = record r {
  occurrences = r.occurrences + 1;
  last_seen = now;
  plan = or_kept plan r.plan;
  code_text = or_kept code r.code_text;
}

-- `UPDATE ... WHERE id = ?`
unfoldable pub update_row : ℕ → (Row → Row) → List Row → List Row
update_row id f [] = []
update_row id f (r ∷ rows) = (if r.id == id then f r else r) ∷ update_row id f rows

-- `SELECT ... WHERE id = ?`
unfoldable pub find_row : ℕ → List Row → Option Row
find_row id [] = none
find_row id (r ∷ rows) = if r.id == id then some r else find_row id rows

abbrev pub count_of : Option Row → ℕ
count_of none = 0
count_of (some r) = r.occurrences

unfoldable pub bump_skill_candidate : Bool → ℕ → Text → Text → ℕ → Table → ℕ × Table
unfolding bumped update_row find_row
bump_skill_candidate healthy id plan code now t =
    if healthy
    then (let rows = update_row id (bumped plan code now) t.rows in
        (count_of (find_row id rows), record t { rows = rows }))
    else (0, t)

-- A name that is empty dismisses.
unfoldable pub settled_as : Option Text → Row → Row
settled_as none r = record r { dismissed = true }
settled_as (some []) r = record r { dismissed = true }
settled_as (some (c ∷ s)) r = record r { promoted_to = some (c ∷ s) }

unfoldable pub settle_skill_candidate : Bool → ℕ → Option Text → Table → Bool × Table
unfolding settled_as update_row find_row
settle_skill_candidate healthy id promoted_to t =
    if healthy
    then (
      is_some (find_row id t.rows),
      record t { rows = update_row id (settled_as promoted_to) t.rows },
    )
    else (false, t)

-- ===== src/Tests/Sessions.antt =====
-- Sessions with datasets, and their manager. A frame is a number here.
use wizard_w.Prelude.{
  ℕ, ◌≡◌, ◌≢◌, ◌≤◌, refl, true, false, String, [], ◌∷◌, none, some, arith, all, string_eq,
}
use text.Mathlib.TextEquality.{eq_iff}
use wizard_w.Prelude.Dict.{Dict, lookup, insert, erase}
use wizard_w.Prelude.Text.{
  codes, text_eq, list_beq, normalised, strip, lstrip, is_space, lower, lower_char,
}
use wizard_w.TableKey.{
  table_key, parts, last_part, path_name, last_dot, stem, squeeze, lstrip_underscores,
  rstrip_underscores, or_table,
}
use wizard_w.TableKey.Safe.{
  is_key_char, starts_with_underscore, ends_with_underscore, table_key_is_safe,
}
use wizard_w.Session.{
  Transport, as_feather, DatasetHandle, Namespace, Session, new_session, add_dataset, set_active,
  remove_dataset,
}
use wizard_w.Session.Invariant.{all_writes, IsConsistent, adding}
use wizard_w.Session.Consistency.{Use-IsConsistent, new_session-IsConsistent}
use wizard_w.Session.Removal.{removed_dataset_stays_df, shared_key_loses_table}
use wizard_w.Manager.{create, IsKeyed, enforce_capacity, by_last_seen, place, pop_all}
use wizard_w.Manager.Sorted.{find}
use wizard_w.Manager.Capacity.{create_evicts_least_recent}
use wizard_w.Tests.Inputs.{policy}

table_key_is_safe_example :
    (table_key "data/ Q3 sales (final).csv" ≢ [])
    × (all is_key_char (table_key "data/ Q3 sales (final).csv") ≡ true)
    × (starts_with_underscore (table_key "data/ Q3 sales (final).csv") ≡ false)
    × (ends_with_underscore (table_key "data/ Q3 sales (final).csv") ≡ false)
table_key_is_safe_example = table_key_is_safe "data/ Q3 sales (final).csv"

abbrev plain : Transport ℕ
plain = record { feather = λ frame. frame; csv = λ frame. frame }

abbrev empty_session : Session ℕ
empty_session = new_session "s1" policy 10

Use-IsConsistent_example :
    IsConsistent plain
      (add_dataset plain all_writes "sales.csv" 7 (codes "csv") true 11 empty_session)
Use-IsConsistent_example =
    Use-IsConsistent plain empty_session
      (add_dataset plain all_writes "sales.csv" 7 (codes "csv") true 11 empty_session)
      (adding "sales.csv" 7 (codes "csv") true 11 (λ n h e. absurd (h (unfold lookup in refl))))
      (new_session-IsConsistent plain "s1" policy 10)

abbrev upload : String → ℕ → DatasetHandle ℕ
upload name frame = record {
  name = name;
  df = frame;
  source_format = codes "csv";
  loaded_at = 10;
  origin = "";
}

abbrev namespace : Namespace ℕ
namespace = record { df = some 3; tables = [] }

-- Two files with one table key, and a runtime that was started.
abbrev crowded : Session ℕ
crowded = record empty_session {
  datasets = ("Q3.csv", upload "Q3.csv" 7) ∷ ("q3.xlsx", upload "q3.xlsx" 8) ∷ [];
  active_dataset = some "q3.xlsx";
  workspace = record {
    files = ("Q3.csv", 7) ∷ ("q3.xlsx", 8) ∷ ("dataset.csv", 8) ∷ [];
    tables = (codes "q3", 8) ∷ [];
    dataset = some (as_feather 8);
  };
  runtime = some namespace;
}

removed_dataset_stays_df_example :
    (after : Namespace ℕ) × ((remove_dataset "Q3.csv"
        (set_active plain all_writes "Q3.csv" crowded).1).1.runtime
      ≡ some after)
    × (after.df ≡ some 7)
removed_dataset_stays_df_example =
    removed_dataset_stays_df plain crowded "Q3.csv" (upload "Q3.csv" 7) namespace
      (unfold lookup in refl) refl (λ e. ground (arith, eq_iff "Q3.csv" "dataset"))
      (λ e. ground (arith, eq_iff "Q3.csv" "dataset.feather"))

one_key : table_key "Q3.csv" ≡ table_key "q3.xlsx"
unfolding table_key parts last_part path_name last_dot stem squeeze lstrip_underscores
    rstrip_underscores or_table normalised strip lstrip is_space lower lower_char list_beq
one_key = refl

shared_key_loses_table_example :
    (lookup "q3.xlsx" (remove_dataset "Q3.csv" crowded).1.datasets ≡ some (upload "q3.xlsx" 8))
    × (lookup (table_key "q3.xlsx") (remove_dataset "Q3.csv" crowded).1.workspace.tables ≡ none)
shared_key_loses_table_example =
    shared_key_loses_table crowded "Q3.csv" "q3.xlsx" (upload "Q3.csv" 7) (upload "q3.xlsx" 8)
      (unfold lookup in (refl, (refl, tt))) (unfold lookup in (refl, tt)) (unfold lookup in refl)
      (unfold lookup in refl) (λ e. ground (arith, eq_iff "Q3.csv" "q3.xlsx")) one_key

abbrev session_at : String → ℕ → Session ℕ
session_at id time = new_session id policy time

abbrev active : Dict String (Session ℕ)
active = ("a", session_at "a" 5) ∷ ("b", session_at "b" 3) ∷ []

active-IsKeyed : IsKeyed active
unfolding lookup
active-IsKeyed = (refl, (refl, (refl, (refl, tt))))

b_is_evicted : find "b" (create 2 "c" policy 9 active).0 ≡ some (session_at "b" 3)
unfolding create enforce_capacity by_last_seen place insert
b_is_evicted = refl

a_is_left : lookup "a" (create 2 "c" policy 9 active).1 ≡ some (session_at "a" 5)
unfolding create enforce_capacity by_last_seen place pop_all insert erase lookup
a_is_left = refl

create_evicts_least_recent_example : 3 ≤ 5
create_evicts_least_recent_example =
    create_evicts_least_recent 2 "c" policy 9 active "b" "a" (session_at "b" 3) (session_at "a" 5)
      active-IsKeyed b_is_evicted a_is_left

-- ===== src/Session/Invariant.antt =====
-- The invariant of a session's datasets, its active dataset and its table files, and the uses that
-- keep it.
use wizard_w.Prelude.{ℕ, ◌≡◌, ◌≢◌, String, Bool, [], Option, none, some, string_eq}
use wizard_w.Prelude.Dict.{Dict, lookup, UniqueKeys}
use wizard_w.Prelude.Text.{Text, text_eq}
use wizard_w.TableKey.{table_key}
use wizard_w.Session.{Transport, DatasetHandle, Session, add_dataset, set_active, remove_dataset}

module _ {Frame : Type 0} (tr : Transport Frame) where
  -- What the methods of a session rely on, of its datasets, active dataset and table files.
  pub record IsFit (datasets : Dict String (DatasetHandle Frame)) (active : Option String)
      (tables : Dict Text Frame) : Type 0 where
    pub unique : UniqueKeys datasets
    pub unique_tables : UniqueKeys tables
    pub named : (n : String) (h : DatasetHandle Frame) → lookup n datasets ≡ some h → h.name ≡ n
    pub active_is_loaded : (n : String) → active ≡ some n → lookup n datasets ≢ none
    pub idle_is_empty : active ≡ none → datasets ≡ []
    pub separate :
        (n m : String)
        → lookup n datasets ≢ none
        → lookup m datasets ≢ none
        → table_key n ≡ table_key m
        → n ≡ m
    pub stored :
        (n : String) (h : DatasetHandle Frame)
        → lookup n datasets ≡ some h
        → lookup (table_key n) tables ≡ some (tr.feather h.df)
    pub no_stray :
        (k : Text)
        → lookup k tables ≢ none
        → (n : String) × (lookup n datasets ≢ none) × (table_key n ≡ k)

  abbrev pub IsConsistent : Session Frame → Type 0
  IsConsistent s = IsFit s.datasets s.active_dataset s.workspace.tables

-- The writes of one call of `_materialize`.
abbrev pub all_writes : ℕ
all_writes = 4

-- A use of a session's datasets whose writes succeed. A new dataset has a table key of its own, or
-- replaces one of its name.
pub data Use {Frame : Type 0} (tr : Transport Frame) (s : Session Frame)
    : Session Frame → Type 0 where
  adding :
      (name : String) (df : Frame) (source_format : Text) (make_active : Bool) (now : ℕ)
      → ((n : String) → lookup n s.datasets ≢ none → table_key n ≡ table_key name → n ≡ name)
      → Use tr s (add_dataset tr all_writes name df source_format make_active now s)
  activating : (name : String) → Use tr s (set_active tr all_writes name s).1
  removing : (name : String) → Use tr s (remove_dataset name s).1

-- ===== src/Session.antt =====
-- backend/src/core/session.py: the datasets of a session, the files that the sandbox reads, and the
-- namespace of the runtime (`load_dataset` of backend/src/core/tools/daemon.py). A dataset has a
-- frame of any type; what pandas makes of a frame that is written and read is given. `writes` says how
-- many of the writes of a call succeed before one raises; one that raises leaves its file as it was.
-- Catalogs and profiles are left out.
pub mod Invariant
pub mod Removal
pub mod Writes
pub mod Consistency
use wizard_w.Prelude.{
  ◌<>◌, ℕ, String, Bool, true, false, ◌&&◌, ◌||◌, leb, List, [], ◌∷◌, Option, none, some,
  if◌then◌else◌, ◌==◌, string_eq,
}
use wizard_w.Prelude.Dict.{Dict, lookup, insert, erase}
use wizard_w.Prelude.Text.{Text, codes, text_eq}
use wizard_w.TableKey.{table_key}
use wizard_w.DataMode.{DataPolicy, forget}

pub record DatasetHandle (Frame : Type 0) : Type 0 where
  pub name : String
  pub df : Frame
  pub source_format : Text
  pub loaded_at : ℕ
  pub origin : String

-- What comes back of a frame that is written as Feather, with columns as text where it must be, and of
-- one that is written as CSV.
pub record Transport (Frame : Type 0) : Type 0 where
  pub feather : Frame → Frame
  pub csv : Frame → Frame

-- What `dataset.feather` holds: Feather, or the CSV of a dataset that has this name.
pub data Stored (Frame : Type 0) : Type 0 where
  as_feather as_csv : Frame → Stored Frame

-- The workspace: `files` holds the CSV `<name>` of each dataset and `dataset.csv`, `tables` holds
-- `tables/<key>.feather`, and `dataset` is `dataset.feather`. Each has the frame that is read back.
pub record Workspace (Frame : Type 0) : Type 0 where
  pub files : Dict String Frame
  pub tables : Dict Text Frame
  pub dataset : Option (Stored Frame)

-- `df` and `tables` in the namespace of a runtime.
pub record Namespace (Frame : Type 0) : Type 0 where
  pub df : Option Frame
  pub tables : Dict Text Frame

pub record Session (Frame : Type 0) : Type 0 where
  pub id : String
  pub created_at : ℕ
  pub last_seen : ℕ
  pub datasets : Dict String (DatasetHandle Frame)
  pub active_dataset : Option String
  pub data_policy : DataPolicy
  pub workspace : Workspace Frame
  pub runtime : Option (Namespace Frame)

abbrev pub new_session : {Frame : Type 0} → String → DataPolicy → ℕ → Session Frame
new_session id policy now = record {
  id = id;
  created_at = now;
  last_seen = now;
  datasets = [];
  active_dataset = none;
  data_policy = policy;
  workspace = record { files = []; tables = []; dataset = none };
  runtime = none;
}

abbrev pub is_none : Option String → Bool
is_none none = true
is_none (some name) = false

abbrev pub is_name : String → Option String → Bool
is_name name none = false
is_name name (some other) = other == name

module _ {Frame : Type 0} where
  unfoldable pub touch : ℕ → Session Frame → Session Frame
  touch now s = record s { last_seen = now }

  unfoldable pub active_handle : Session Frame → Option (DatasetHandle Frame)
  active_handle s = elim s.active_dataset [ none ↦ none | some name ↦ lookup name s.datasets ]

  -- `load_dataset` of the daemon: the tables are read anew, and `df` from the first file that can be
  -- read. No part of the program writes the `dataset.parquet` that it looks for in between.
  unfoldable pub load_dataset : Workspace Frame → Namespace Frame → Namespace Frame
  load_dataset w ns =
      let from_csv : Option Frame = elim (lookup "dataset.csv" w.files) [
        | some frame ↦ some frame
        | none ↦ ns.df
      ] in
      record {
        df = elim w.dataset [
          | some (as_feather frame) ↦ some frame
          | some (as_csv frame) ↦ from_csv
          | none ↦ from_csv
        ];
        tables = w.tables;
      }

  -- `executor.reload_dataset`, which does nothing where no runtime was started.
  unfoldable pub reload_dataset : Session Frame → Session Frame
  unfolding load_dataset
  reload_dataset s = elim s.runtime [
    | none ↦ s
    | some ns ↦ record s { runtime = some (load_dataset s.workspace ns) }
  ]

  -- `df.to_csv(workspace / name)`
  unfoldable pub write_csv : Transport Frame → String → Frame → Workspace Frame → Workspace Frame
  write_csv tr name df w =
      if name == "dataset.feather"
      then record w { dataset = some (as_csv (tr.csv df)) }
      else record w { files = insert name (tr.csv df) w.files }

  -- `_materialize`
  unfoldable pub materialize :
      Transport Frame → ℕ → DatasetHandle Frame → Bool → Workspace Frame → Workspace Frame
  unfolding write_csv
  materialize tr writes handle is_active w0 =
      let w1 : Workspace Frame =
        if leb 1 writes then write_csv tr handle.name handle.df w0 else w0 in
      let w2 : Workspace Frame =
        if leb 2 writes
        then record w1 { tables = insert (table_key handle.name) (tr.feather handle.df) w1.tables }
        else w1 in
      let w3 : Workspace Frame =
        if is_active && leb 3 writes
        then record w2 { dataset = some (as_feather (tr.feather handle.df)) }
        else w2 in
      if is_active && leb 4 writes then write_csv tr "dataset.csv" handle.df w3 else w3

  unfoldable pub add_dataset :
      Transport Frame → ℕ → String → Frame → Text → Bool → ℕ → Session Frame → Session Frame
  unfolding touch materialize
  add_dataset tr writes name df source_format make_active now s =
      let handle : DatasetHandle Frame = record {
        name = name;
        df = df;
        source_format = source_format;
        loaded_at = now;
        origin = "";
      } in
      let active : Option String =
        if make_active || is_none s.active_dataset then some name else s.active_dataset in
      record s {
        datasets = insert name handle s.datasets;
        active_dataset = active;
        last_seen = now;
        workspace = materialize tr writes handle (is_name name active) s.workspace;
      }

  unfoldable pub set_active : Transport Frame → ℕ → String → Session Frame → Bool × Session Frame
  unfolding materialize reload_dataset
  set_active tr writes name s = elim (lookup name s.datasets) [
    | none ↦ (false, s)
    | some handle ↦ (
      true,
      reload_dataset (record s {
        active_dataset = some name;
        workspace = materialize tr writes handle true s.workspace;
      }),
    )
  ]

  abbrev pub first_name : Dict String (DatasetHandle Frame) → Option String
  first_name [] = none
  first_name ((name, handle) ∷ d) = some name

  -- The files that are deleted with a dataset: `<name>` and `<name>.feather`, and its table.
  unfoldable pub unlinked : String → Text → Workspace Frame → Workspace Frame
  unlinked name key w = record {
    files = erase (name <> ".feather") (erase name w.files);
    tables = erase key w.tables;
    dataset = if name == "dataset" || name == "dataset.feather" then none else w.dataset;
  }

  unfoldable pub remove_dataset : String → Session Frame → Bool × Session Frame
  unfolding reload_dataset unlinked
  remove_dataset name s = elim (lookup name s.datasets) [
    | none ↦ (false, s)
    | some handle ↦
        let rest = erase name s.datasets in
        (
          true,
          reload_dataset (record s {
            datasets = rest;
            active_dataset =
                if is_name name s.active_dataset then first_name rest else s.active_dataset;
            data_policy = forget s.data_policy name;
            workspace = unlinked name (table_key handle.name) s.workspace;
          }),
        )
  ]

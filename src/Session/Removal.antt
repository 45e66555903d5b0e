-- ===== src/Session/Removal.antt =====
-- What stays behind when a dataset is removed.
use wizard_w.Prelude.{
  ℕ, ◌≡◌, ◌≢◌, refl, ap, ◌∙◌, String, true, none, some, arith, if◌then◌else◌, string_eq,
}
use text.Mathlib.TextEquality.{eq_iff}
use wizard_w.Prelude.Dict.{lookup, erase, lookup-erase, UniqueKeys}
use wizard_w.Prelude.Text.{Text, text_eq}
use wizard_w.TableKey.{table_key}
use wizard_w.DataMode.{forget}
use wizard_w.Session.Invariant.{all_writes}
use wizard_w.Session.{
  Transport, as_feather, DatasetHandle, Workspace, Namespace, Session, load_dataset, write_csv,
  reload_dataset, materialize, set_active, remove_dataset, first_name, is_name, unlinked,
}

module _ {Frame : Type 0} (tr : Transport Frame) (writes : ℕ) (s : Session Frame) (name : String)
    (handle : DatasetHandle Frame) (found : lookup name s.datasets ≡ some handle) where
  pub set_active-found : set_active tr writes name s ≡ (
    true,
    reload_dataset (record s {
      active_dataset = some name;
      workspace = materialize tr writes handle true s.workspace;
    }),
  )
  unfolding set_active reload_dataset
  set_active-found = rw (set_active, found) refl

module _ {Frame : Type 0} (s : Session Frame) (name : String) (handle : DatasetHandle Frame)
    (found : lookup name s.datasets ≡ some handle) where
  pub remove_dataset-found : remove_dataset name s ≡ (
    true,
    reload_dataset (record s {
      datasets = erase name s.datasets;
      active_dataset =
          if is_name name s.active_dataset
          then first_name (erase name s.datasets)
          else s.active_dataset;
      data_policy = forget s.data_policy name;
      workspace = unlinked name (table_key handle.name) s.workspace;
    }),
  )
  unfolding remove_dataset reload_dataset
  remove_dataset-found = rw (remove_dataset, found) refl

reloaded :
    {Frame : Type 0} (t : Session Frame) (ns : Namespace Frame)
    → t.runtime ≡ some ns
    → (reload_dataset t).runtime ≡ some (load_dataset t.workspace ns)
unfolding reload_dataset
reloaded t ns live = ground arith

-- What a reload leaves alone.
pub reload_dataset-fields :
    {Frame : Type 0} (t : Session Frame)
    → ((reload_dataset t).datasets ≡ t.datasets) × ((reload_dataset t).workspace ≡ t.workspace)
unfolding reload_dataset
reload_dataset-fields t = ground arith

-- The datasets and the files after a removal.
pub remove_dataset-fields :
    {Frame : Type 0} (s : Session Frame) (name : String) (handle : DatasetHandle Frame)
    → lookup name s.datasets ≡ some handle
    → ((remove_dataset name s).1.datasets ≡ erase name s.datasets)
      × ((remove_dataset name s).1.workspace ≡ unlinked name (table_key handle.name) s.workspace)
remove_dataset-fields s name handle found = (
  ap (λ r. r.1.datasets) (remove_dataset-found s name handle found) ∙ (reload_dataset-fields _).0,
  ap (λ r. r.1.workspace) (remove_dataset-found s name handle found) ∙ (reload_dataset-fields _).1,
)

dataset_written :
    {Frame : Type 0} (tr : Transport Frame) (handle : DatasetHandle Frame) (w : Workspace Frame)
    → (materialize tr all_writes handle true w).dataset ≡ some (as_feather (tr.feather handle.df))
unfolding materialize write_csv
dataset_written tr handle w = refl

df_from_feather :
    {Frame : Type 0} (w : Workspace Frame) (ns : Namespace Frame) (frame : Frame)
    → w.dataset ≡ some (as_feather frame)
    → (load_dataset w ns).df ≡ some frame
unfolding load_dataset
df_from_feather w ns frame e = rw e refl

dataset_left :
    {Frame : Type 0} (name : String) (key : Text) (w : Workspace Frame)
    → name ≢ "dataset"
    → name ≢ "dataset.feather"
    → (unlinked name key w).dataset ≡ w.dataset
unfolding unlinked
dataset_left name key w a b = ground (arith, eq_iff name "dataset", eq_iff name "dataset.feather")

-- A dataset that is made active, with all its files written, and then removed remains `df` in a
-- running sandbox, unless its name is `dataset` or `dataset.feather`: its frame is still in
-- `dataset.feather`, as Feather carries it, which the reload reads again.
pub removed_dataset_stays_df :
    {Frame : Type 0} (tr : Transport Frame) (s : Session Frame) (name : String)
    (handle : DatasetHandle Frame) (ns : Namespace Frame)
    → lookup name s.datasets ≡ some handle
    → s.runtime ≡ some ns
    → name ≢ "dataset"
    → name ≢ "dataset.feather"
    → (after : Namespace Frame) × ((remove_dataset name
          (set_active tr all_writes name s).1).1.runtime
        ≡ some after)
      × (after.df ≡ some (tr.feather handle.df))
removed_dataset_stays_df {Frame} tr s name handle ns found live other apart =
    let t : Session Frame = record s {
      active_dataset = some name;
      workspace = materialize tr all_writes handle true s.workspace;
    } in
    let s1 : Session Frame = reload_dataset t in
    let (same, kept) = reload_dataset-fields t in
    let found1 : lookup name s1.datasets ≡ some handle = ap (λ d. lookup name d) same ∙ found in
    let ns1 : Namespace Frame = load_dataset t.workspace ns in
    let left : Workspace Frame = unlinked name (table_key handle.name) s1.workspace in
    let after : Namespace Frame = load_dataset left ns1 in
    let ran : (remove_dataset name s1).1.runtime ≡ some after =
      ap (λ r. r.1.runtime) (remove_dataset-found s1 name handle found1)
      ∙ reloaded _ ns1 (reloaded t ns live) in
    (
      after,
      ap (λ r. (remove_dataset name r.1).1.runtime)
            (set_active-found tr all_writes s name handle found)
          ∙ ran,
      df_from_feather left ns1 (tr.feather handle.df) (
          dataset_left name (table_key handle.name) s1.workspace other apart
          ∙ (ap (λ w. w.dataset) kept ∙ dataset_written tr handle s.workspace)),
    )

-- Where two datasets share a table key, removing one deletes the table file of the other, which is
-- still loaded.
pub shared_key_loses_table :
    {Frame : Type 0} (s : Session Frame) (name other : String) (handle kept : DatasetHandle Frame)
    → UniqueKeys s.datasets
    → UniqueKeys s.workspace.tables
    → lookup name s.datasets ≡ some handle
    → lookup other s.datasets ≡ some kept
    → name ≢ other
    → table_key handle.name ≡ table_key kept.name
    → (lookup other (remove_dataset name s).1.datasets ≡ some kept)
      × (lookup (table_key kept.name) (remove_dataset name s).1.workspace.tables ≡ none)
unfolding unlinked
shared_key_loses_table {Frame} s name other handle kept u v found also apart same =
    let (datasets, workspace) = remove_dataset-fields s name handle found in
    (
      ground (arith, datasets, also, lookup-erase name other s.datasets u, eq_iff name other),
      ap (λ w. lookup (table_key kept.name) w.tables) workspace
          ∙ ground (
            arith,
            lookup-erase (table_key handle.name) (table_key kept.name) s.workspace.tables v,
            text_eq.decides (table_key handle.name) (table_key kept.name),
          ),
    )

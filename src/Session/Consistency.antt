-- ===== src/Session/Consistency.antt =====
-- Adding, activating and removing datasets keeps a session consistent.
use mathlib.Core.Path.{subst}
use wizard_w.Prelude.{
  ℕ, Bool, true, if◌then◌else◌, ◌||◌, ◌≡◌, refl, sym, String, Option, none, some, arith, string_eq,
  Option-cases, inl, inr,
}
use text.Mathlib.TextEquality.{eq_iff}
use wizard_w.Prelude.Dict.{lookup, insert, lookup-insert}
use wizard_w.Prelude.Text.{text_eq}
use wizard_w.TableKey.{table_key}
use wizard_w.DataMode.{DataPolicy}
use wizard_w.Session.{
  Transport, DatasetHandle, Workspace, Session, new_session, Namespace, is_none, is_name, write_csv,
  materialize, load_dataset, reload_dataset, add_dataset, set_active, unlinked, remove_dataset,
}
use wizard_w.Session.Removal.{set_active-found, remove_dataset-found}
use wizard_w.Session.Invariant.{all_writes, IsFit, IsConsistent, Use, adding, activating, removing}
use wizard_w.Session.Writes.{written, rewritten, removed}

-- A session starts consistent.
pub new_session-IsConsistent :
    {Frame : Type 0} (tr : Transport Frame) (id : String) (policy : DataPolicy) (now : ℕ)
    → IsConsistent tr (new_session id policy now)
unfolding lookup
new_session-IsConsistent tr id policy now = record {
  unique = tt;
  unique_tables = tt;
  named = λ n h found. ground arith;
  active_is_loaded = λ n e. ground arith;
  idle_is_empty = λ e. refl;
  separate = λ n m hn hm e. absurd (hn refl);
  stored = λ n h found. ground arith;
  no_stray = λ k there. absurd (there refl);
}

reload_dataset-IsConsistent :
    {Frame : Type 0} (tr : Transport Frame) (t : Session Frame)
    → IsConsistent tr t
    → IsConsistent tr (reload_dataset t)
unfolding reload_dataset
reload_dataset-IsConsistent {Frame} tr t v =
    let reloads : Option (Namespace Frame) → Session Frame = λ o. elim o [
      | none ↦ t
      | some ns ↦ record t { runtime = some (load_dataset t.workspace ns) }
    ] in
    elim t.runtime as (λ o. IsConsistent tr (reloads o)) [ none ↦ v | some ns ↦ v ]

set_active-absent :
    {Frame : Type 0} (tr : Transport Frame) (writes : ℕ) (s : Session Frame) (name : String)
    → lookup name s.datasets ≡ none
    → s ≡ (set_active tr writes name s).1
set_active-absent tr writes s name absent = unfold set_active in ground arith

remove_dataset-absent :
    {Frame : Type 0} (s : Session Frame) (name : String)
    → lookup name s.datasets ≡ none
    → s ≡ (remove_dataset name s).1
remove_dataset-absent s name absent = unfold remove_dataset in ground arith

tables_written :
    {Frame : Type 0} (tr : Transport Frame) (handle : DatasetHandle Frame) (b : Bool)
    (w : Workspace Frame)
    → insert (table_key handle.name) (tr.feather handle.df) w.tables
      ≡ (materialize tr all_writes handle b w).tables
unfolding materialize write_csv
tables_written tr handle b w = ground arith

-- Adding, activating and removing datasets keeps a session consistent, provided that all the writes
-- of files succeed and that an added dataset does not share the table key of another: the active
-- dataset is one that is loaded and there is one whenever any is loaded, each dataset has its own
-- table file with its frame as Feather carries it, and there is no other table file.
pub Use-IsConsistent :
    {Frame : Type 0} (tr : Transport Frame) (s r : Session Frame)
    → Use tr s r
    → IsConsistent tr s
    → IsConsistent tr r
unfolding add_dataset unlinked
Use-IsConsistent {Frame} tr s r (adding name df source_format make_active now own) v =
    let handle : DatasetHandle Frame = record {
      name = name;
      df = df;
      source_format = source_format;
      loaded_at = now;
      origin = "";
    } in
    let active : Option String =
      if make_active || is_none s.active_dataset then some name else s.active_dataset in
    subst (λ d. IsFit tr (insert name handle s.datasets) active d)
      (tables_written tr handle (is_name name active) s.workspace)
      (written tr s v name handle active refl own (λ e. ground arith)
        (λ n e gone.
          ground (
            arith,
            e,
            lookup-insert name n handle s.datasets,
            eq_iff name n,
            v.active_is_loaded n,
          )))
Use-IsConsistent tr s r (activating name) v = elim (Option-cases (lookup name s.datasets)) [
  | inl absent ↦ subst (λ q. IsConsistent tr q) (set_active-absent tr all_writes s name absent) v
  | inr (handle, found) ↦
      subst (λ q. IsConsistent tr q.1) (sym (set_active-found tr all_writes s name handle found))
        (reload_dataset-IsConsistent tr _ (
          subst (λ d. IsFit tr s.datasets (some name) d) (tables_written tr handle true s.workspace)
            (rewritten tr s v name handle found)))
]
Use-IsConsistent tr s r (removing name) v = elim (Option-cases (lookup name s.datasets)) [
  | inl absent ↦ subst (λ q. IsConsistent tr q) (remove_dataset-absent s name absent) v
  | inr (handle, found) ↦
      subst (λ q. IsConsistent tr q.1) (sym (remove_dataset-found s name handle found))
        (reload_dataset-IsConsistent tr _ (removed tr s v name handle found))
]

-- ===== src/Session/Writes.antt =====
-- What a write of a dataset, of its files, and a removal do to the invariant.
use wizard_w.Prelude.{
  ◌≡◌, ◌≢◌, refl, ap, sym, ◌∙◌, String, [], ◌∷◌, Option, none, some, arith, if◌then◌else◌, ◌==◌,
  string_eq, Bool-cases, ◌⊎◌, inl, inr,
}
use text.Mathlib.TextEquality.{eq_iff}
use wizard_w.Prelude.Dict.{
  Dict, lookup, insert, erase, lookup-insert, lookup-erase, insert-UniqueKeys, erase-UniqueKeys,
}
use wizard_w.Prelude.Text.{Text, text_eq}
use wizard_w.TableKey.{table_key}
use wizard_w.Session.{Transport, DatasetHandle, Session, first_name, is_name}
use wizard_w.Session.Invariant.{IsFit, IsConsistent}

same_or_not : (a b : String) → (a ≡ b) ⊎ (a ≢ b)
same_or_not a b = ground (arith, eq_iff a b)

module _ {Frame : Type 0} (tr : Transport Frame) (s : Session Frame) (v : IsConsistent tr s)
    (name : String) where
  -- A dataset after a write is the written one or an earlier one.
  present_after :
      (handle : DatasetHandle Frame) (n : String)
      → lookup n (insert name handle s.datasets) ≢ none
      → (n ≡ name) ⊎ (lookup n s.datasets ≢ none)
  present_after handle n h = elim (same_or_not name n) [
    | inl e ↦ inl (sym e)
    | inr other ↦
        inr (λ gone. h (ground (arith, lookup-insert name n handle s.datasets, eq_iff name n)))
  ]

  -- Writing a dataset with a table key of its own.
  pub written :
      (handle : DatasetHandle Frame) (active : Option String)
      → handle.name ≡ name
      → ((n : String) → lookup n s.datasets ≢ none → table_key n ≡ table_key name → n ≡ name)
      → active ≢ none
      → ((n : String) → active ≡ some n → lookup n (insert name handle s.datasets) ≢ none)
      → IsFit tr
          (insert name handle s.datasets)
          active
          (insert (table_key handle.name) (tr.feather handle.df) s.workspace.tables)
  written handle active same own busy loaded = record {
    unique = insert-UniqueKeys name handle s.datasets v.unique;
    unique_tables =
        insert-UniqueKeys (table_key handle.name) (tr.feather handle.df) s.workspace.tables
          v.unique_tables;
    named = λ n h found.
        ground (arith, lookup-insert name n handle s.datasets, eq_iff name n, v.named n h);
    active_is_loaded = loaded;
    idle_is_empty = λ e. absurd (busy e);
    separate = λ n m hn hm e. elim (present_after handle n hn) [
      | inl n_new ↦ elim (present_after handle m hm) [
        | inl m_new ↦ n_new ∙ sym m_new
        | inr m_old ↦ n_new ∙ sym (own m m_old (sym e ∙ ap table_key n_new))
      ]
      | inr n_old ↦ elim (present_after handle m hm) [
        | inl m_new ↦ own n n_old (e ∙ ap table_key m_new) ∙ sym m_new
        | inr m_old ↦ v.separate n m n_old m_old e
      ]
    ];
    stored = λ n h found. elim (same_or_not name n) [
      | inl e ↦ ground (
        arith,
        lookup-insert name n handle s.datasets,
        eq_iff name n,
        ap table_key e,
        ap table_key same,
        lookup-insert (table_key handle.name) (table_key n) (tr.feather handle.df)
            s.workspace.tables,
        text_eq.decides (table_key handle.name) (table_key n),
      )
      | inr other ↦
          let old : lookup n s.datasets ≡ some h =
            ground (arith, lookup-insert name n handle s.datasets, eq_iff name n) in
          ground (
            arith,
            v.stored n h old,
            ap table_key same,
            λ (k : table_key n ≡ table_key name). own n (λ gone. ground arith) k,
            lookup-insert (table_key handle.name) (table_key n) (tr.feather handle.df)
                s.workspace.tables,
            text_eq.decides (table_key handle.name) (table_key n),
          )
    ];
    no_stray = λ k there. elim (Bool-cases (table_key handle.name == k)) [
      | inl e ↦ (
        name,
        (λ gone. ground (arith, lookup-insert name name handle s.datasets, eq_iff name name)),
        sym (ap table_key same) ∙ (text_eq.decides (table_key handle.name) k).0 e,
      )
      | inr e ↦
          let (n, old, key) = v.no_stray k (λ gone. there (
            ground (
              arith,
              lookup-insert (table_key handle.name) k (tr.feather handle.df) s.workspace.tables,
            ))) in
          (
            n,
            (λ gone. old (ground (arith, lookup-insert name n handle s.datasets, eq_iff name n))),
            key,
          )
    ];
  }

  -- Writing the files of a dataset that is loaded.
  pub rewritten :
      (handle : DatasetHandle Frame)
      → lookup name s.datasets ≡ some handle
      → IsFit tr s.datasets
          (some name)
          (insert (table_key handle.name) (tr.feather handle.df) s.workspace.tables)
  rewritten handle found =
      let same : table_key handle.name ≡ table_key name =
        ap table_key (v.named name handle found) in
      let files : (k : Text)
          → lookup k (insert (table_key handle.name) (tr.feather handle.df) s.workspace.tables)
            ≡ lookup k s.workspace.tables =
        λ k. ground (
          arith,
          lookup-insert (table_key handle.name) k (tr.feather handle.df) s.workspace.tables,
          same,
          v.stored name handle found,
          text_eq.decides (table_key handle.name) k,
          λ (e : table_key handle.name ≡ k). ap (λ x. lookup x s.workspace.tables) (sym same ∙ e),
        ) in
      record {
        unique = v.unique;
        unique_tables =
            insert-UniqueKeys (table_key handle.name) (tr.feather handle.df) s.workspace.tables
              v.unique_tables;
        named = v.named;
        active_is_loaded =
            λ n e gone. ground (arith, found, λ (i : name ≡ n). ap (λ x. lookup x s.datasets) i);
        idle_is_empty = λ e. ground arith;
        separate = v.separate;
        stored = λ n h old. files (table_key n) ∙ v.stored n h old;
        no_stray = λ k there. v.no_stray k (λ gone. there (files k ∙ gone));
      }

  -- The first dataset of a dictionary is one of its datasets.
  first_name-present :
      (d : Dict String (DatasetHandle Frame)) (n : String)
      → first_name d ≡ some n
      → lookup n d ≢ none
  unfolding lookup
  first_name-present [] n e = ground arith
  first_name-present ((m, h) ∷ d) n e = λ gone. ground (arith, eq_iff m n)

  first_name-none : (d : Dict String (DatasetHandle Frame)) → first_name d ≡ none → d ≡ []
  first_name-none [] e = refl
  first_name-none ((m, h) ∷ d) e = ground arith

  -- Dropping a dataset and its files.
  pub removed :
      (handle : DatasetHandle Frame)
      → lookup name s.datasets ≡ some handle
      → IsFit tr
          (erase name s.datasets)
          (if is_name name s.active_dataset
            then first_name (erase name s.datasets)
            else s.active_dataset)
          (erase (table_key handle.name) s.workspace.tables)
  removed handle found =
      let same : table_key handle.name ≡ table_key name =
        ap table_key (v.named name handle found) in
      let left : (n : String)
          → lookup n (erase name s.datasets) ≡ (if name == n then none else lookup n s.datasets) =
        λ n. lookup-erase name n s.datasets v.unique in
      let files : (k : Text)
          → lookup k (erase (table_key handle.name) s.workspace.tables)
            ≡ (if table_key handle.name == k then none else lookup k s.workspace.tables) =
        λ k. lookup-erase (table_key handle.name) k s.workspace.tables v.unique_tables in
      record {
        unique = erase-UniqueKeys name s.datasets v.unique;
        unique_tables = erase-UniqueKeys (table_key handle.name) s.workspace.tables v.unique_tables;
        named = λ n h old. ground (arith, left n, v.named n h);
        active_is_loaded = λ n e. elim (Bool-cases (is_name name s.active_dataset)) [
          | inl was ↦ first_name-present (erase name s.datasets) n (ground arith)
          | inr other ↦
              λ gone. v.active_is_loaded n (ground arith) (ground (arith, left n, eq_iff name n))
        ];
        idle_is_empty = λ e. elim (Bool-cases (is_name name s.active_dataset)) [
          | inl was ↦ first_name-none (erase name s.datasets) (ground arith)
          | inr other ↦ absurd (
              unfold lookup in
              ground (arith, found, ap (λ d. lookup name d) (v.idle_is_empty (ground arith))))
        ];
        separate = λ n m hn hm e.
            v.separate n m (λ gone. hn (ground (arith, left n)))
              (λ gone. hm (ground (arith, left m))) e;
        stored = λ n h old.
            let before : lookup n s.datasets ≡ some h = ground (arith, left n) in
            let apart : table_key handle.name ≢ table_key n = λ e.
              let is : name ≡ n =
                v.separate name n (λ gone. ground arith) (λ gone. ground arith) (sym same ∙ e) in
              ground (arith, left n, eq_iff name n) in
            ground (
              arith,
              files (table_key n),
              v.stored n h before,
              text_eq.decides (table_key handle.name) (table_key n),
            );
        no_stray = λ k there.
            let (n, old, key) = v.no_stray k (λ gone. there (ground (arith, files k))) in
            let apart : name ≢ n = λ e. there (
              ground (
                arith,
                files k,
                text_eq.decides (table_key handle.name) k,
                same ∙ ap table_key e ∙ key,
              )) in
            (n, (λ gone. old (ground (arith, left n, eq_iff name n))), key);
      }

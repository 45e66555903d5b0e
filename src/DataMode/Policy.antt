-- ===== src/DataMode/Policy.antt =====
-- The overrides of `DataPolicy`: precedence, and what setting and clearing one changes.
use wizard_w.Prelude.{◌≡◌, refl, ◌≢◌, String, Bool, true, Option, none, some, arith, string_eq}
use wizard_w.Prelude.Dict.{lookup, UniqueKeys, lookup-insert, lookup-erase}
use text.Mathlib.TextEquality.{eq_iff}
use wizard_w.DataMode.{DataPolicy, schema_only_for, set_for, clear_for, forget}

-- After `set_for` a named table has the value that was set, whatever its origin; the policy of every
-- other table that does not come from a source of that name is what it was.
schema_only_for-set_for :
    (policy : DataPolicy) (name other : String) (b : Bool) (origin : Option String)
    → name ≢ ""
    → (schema_only_for (set_for policy name b) (some name) origin ≡ b)
      × (other ≢ name
          → origin ≢ some name
          → schema_only_for (set_for policy name b) (some other) origin
            ≡ schema_only_for policy (some other) origin)
unfolding schema_only_for set_for
schema_only_for-set_for policy name other b none named = (
  ground (arith, eq_iff name "", lookup-insert name name b policy.per_dataset, eq_iff name name),
  λ ne so.
      ground
        (arith, eq_iff other "", eq_iff name other, lookup-insert name other b policy.per_dataset),
)
schema_only_for-set_for policy name other b (some o) named = (
  ground (arith, eq_iff name "", lookup-insert name name b policy.per_dataset, eq_iff name name),
  λ ne so. ground (
    arith,
    eq_iff other "",
    eq_iff name other,
    eq_iff name o,
    eq_iff o "",
    lookup-insert name other b policy.per_dataset,
    lookup-insert name o b policy.per_dataset,
  ),
)

-- After `forget`, a table follows its source's override if there is one, and the session's default
-- otherwise: nothing of its own override is left, so a table loaded later under the same name
-- does not inherit it. `clear_for` leaves the same policy, and reports whether there was one.
pub schema_only_for-forget :
    (policy : DataPolicy) (name : String) (origin : Option String)
    → UniqueKeys policy.per_dataset
    → origin ≢ some name
    → (schema_only_for (forget policy name) (some name) origin ≡ schema_only_for policy none origin)
      × ((clear_for policy name).0 ≡ forget policy name)
      × ((clear_for policy name).1 ≡ true → lookup name policy.per_dataset ≢ none)
unfolding schema_only_for forget clear_for
schema_only_for-forget policy name none u other = (
  ground (arith, eq_iff name "", lookup-erase name name policy.per_dataset, eq_iff name name),
  refl,
  ground arith,
)
schema_only_for-forget policy name (some o) u other = (
  ground (
    arith,
    eq_iff name "",
    eq_iff o "",
    lookup-erase name name policy.per_dataset,
    eq_iff name name,
    lookup-erase name o policy.per_dataset,
    eq_iff name o,
  ),
  refl,
  ground arith,
)

-- ===== src/Permissions/Rulings.antt =====
-- What the profile and the matrix can and cannot say of a category.
use wizard_w.Prelude.{
  ◌≡◌, ◌≢◌, refl, String, true, false, ◌&&◌, Option, some, arith, string_eq, Option-cases, inl, inr,
}
use text.Mathlib.TextEquality.{eq_iff}
use wizard_w.Prelude.Dict.{insert, lookup-insert}
use wizard_w.Prelude.Text.{Text, normalised, list_beq}
use wizard_w.Config.{Settings, custom}
use wizard_w.Permissions.{
  Ruling, allow, ask, deny, PermissionCategory, PermissionState, category_by_key, ruling_text,
  normalize, normalize_ruling, ruling_for, recorded, set_ruling, is_allow,
}

-- A ruling that was stored is read back as itself, whatever the fallback.
normalize_ruling-ruling_text : (r f : Ruling) → normalize_ruling (some (ruling_text r)) f ≡ r
unfolding normalize_ruling normalised list_beq
normalize_ruling-ruling_text allow f = refl
normalize_ruling-ruling_text ask f = refl
normalize_ruling-ruling_text deny f = refl

-- The table is keyed by each category's own key.
pub key-category_by_key :
    (key : String) (c : PermissionCategory) → category_by_key key ≡ some c → c.key ≡ key
unfolding category_by_key
key-category_by_key key c h = ground (
  arith,
  eq_iff "library_install" key,
  eq_iff "network" key,
  eq_iff "workspace_write" key,
  eq_iff "db_connect" key,
  eq_iff "db_write" key,
  eq_iff "tool_use" key,
)

-- A category marked `always_ask` is never ruled `allow`: not by any profile, not by any matrix,
-- however the matrix came about.
pub always_ask-ruling_for :
    (s : Settings) (p : PermissionState) (key : String) (c : PermissionCategory)
    → category_by_key key ≡ some c
    → c.always_ask ≡ true
    → ruling_for s p key ≢ allow
unfolding ruling_for
always_ask-ruling_for s p key c found strict = ground arith

-- The state that `set_ruling` records, and what it has checked.
recorded_state :
    (p q : PermissionState) (key : String) (text : Option Text) (c : PermissionCategory)
    → category_by_key key ≡ some c
    → set_ruling p key text ≡ recorded q
    → (q.profile ≡ p.profile)
      × (q.matrix ≡ insert key (ruling_text (normalize_ruling text c.default)) p.matrix)
      × ((c.always_ask && is_allow (normalize_ruling text c.default)) ≡ false)
unfolding set_ruling
recorded_state p q key text c found h = ground arith

-- When `set_ruling` records a choice, then under the custom profile the ruling of that category is
-- the recorded one and that of every other category is what it was; under the other profiles every
-- ruling is what it was.
pub ruling_for-set_ruling :
    (s : Settings) (p q : PermissionState) (key other : String) (text : Option Text)
    → set_ruling p key text ≡ recorded q
    → (c : PermissionCategory) × (category_by_key key ≡ some c)
      × (normalize s (some p.profile) ≡ custom
          → ruling_for s q key ≡ normalize_ruling text c.default)
      × (other ≢ key → ruling_for s q other ≡ ruling_for s p other)
      × (normalize s (some p.profile) ≢ custom → ruling_for s q key ≡ ruling_for s p key)
ruling_for-set_ruling s p q key other text h = elim (Option-cases (category_by_key key)) [
  | inl unknown ↦ absurd (unfold set_ruling in ground arith)
  | inr (c, found) ↦
      let saved = recorded_state p q key text c found h in
      let entry = λ (k : String).
        lookup-insert key k (ruling_text (normalize_ruling text c.default)) p.matrix in
      let own = key-category_by_key key c found in
      (
        c,
        found,
        λ chosen.
            unfold ruling_for in
            ground (
              arith,
              saved,
              own,
              entry key,
              eq_iff key key,
              normalize_ruling-ruling_text (normalize_ruling text c.default) c.default,
            ),
        λ ne. elim (Option-cases (category_by_key other)) [
          | inl absent ↦ unfold ruling_for in ground arith
          | inr (d, listed) ↦
              unfold ruling_for in
              ground
                (arith, saved, key-category_by_key other d listed, entry other, eq_iff key other)
        ],
        λ fixed. unfold ruling_for in ground (arith, saved),
      )
]

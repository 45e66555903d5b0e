-- ===== src/Permissions/Authorize.antt =====
-- The gate for actions that the user started over HTTP, and the grants that it leaves.
use wizard_w.Prelude.{
  ◌≡◌, ◌≢◌, ◌↔◌, ◌⊎◌, ◌||◌, ◌&&◌, String, true, arith, string_eq, pair_eq, pair_beq, ◌==◌,
}
use text.Mathlib.TextEquality.{eq_iff}
use wizard_w.Config.{Settings}
use wizard_w.Permissions.{deny, PermissionState, ruling_for, granted, grant, allowed, authorize}

-- A grant adds its own pair and no other, and leaves the profile, the matrix and the roots alone.
pub granted-grant :
    (p : PermissionState) (category subject c' s' : String)
    → granted (grant p category subject) c' s'
      ≡ ((category == c' && subject == s') || granted p c' s')
unfolding granted grant pair_beq
granted-grant p category subject c' s' = ground (arith, eq_iff category c', eq_iff subject s')

pub ruling_for-grant :
    (s : Settings) (p : PermissionState) (category subject key : String)
    → ruling_for s (grant p category subject) key ≡ ruling_for s p key
unfolding ruling_for grant
ruling_for-grant s p category subject key = ground arith

-- An HTTP action is allowed exactly when it was granted before or its ruling is not `deny`. A
-- refusal leaves the state alone. After an action was allowed the same action is granted, every
-- other grant is what it was, every ruling is what it was, and asking again changes nothing.
authorize_iff :
    (s : Settings) (p : PermissionState) (category subject c' s' : String)
    → ((authorize s p category subject).0 ≡ allowed
        ↔ ((granted p category subject ≡ true) ⊎ (ruling_for s p category ≢ deny)))
      × ((authorize s p category subject).0 ≢ allowed → (authorize s p category subject).1 ≡ p)
      × ((authorize s p category subject).0 ≡ allowed
          → granted (authorize s p category subject).1 c' s'
            ≡ ((category == c' && subject == s') || granted p c' s'))
      × (ruling_for s (authorize s p category subject).1 c' ≡ ruling_for s p c')
unfolding authorize
authorize_iff s p category subject c' s' = (
  ground arith,
  ground arith,
  ground (arith, granted-grant p category subject c' s', eq_iff category c', eq_iff subject s'),
  ground (arith, ruling_for-grant s p category subject c'),
)

-- The same request made again gets the same ruling and leaves the state as it is.
pub authorize_twice :
    (s : Settings) (p : PermissionState) (category subject : String)
    → authorize s (authorize s p category subject).1 category subject
      ≡ ((authorize s p category subject).0, (authorize s p category subject).1)
unfolding authorize
authorize_twice s p category subject = ground (
  arith,
  granted-grant p category subject category subject,
  eq_iff category category,
  eq_iff subject subject,
)

-- ===== src/Permissions.antt =====
-- backend/src/core/permissions.py: the profile, the per-category matrix and the session's grants.
-- A reason is a value that holds what its sentence names.
pub mod Rulings
pub mod Authorize
use wizard_w.Prelude.{
  String, Bool, true, false, ◌&&◌, List, [], ◌∷◌, ◌++◌, Option, none, some, map, if◌then◌else◌,
  contains, ◌==◌, string_eq, pair_eq,
}
use wizard_w.Prelude.Dict.{Dict, lookup, insert}
use wizard_w.Prelude.Text.{Text, codes, text_eq, normalised}
use wizard_w.Config.{Profile, auto_approve, ask_always, custom, Settings}

pub data Ruling : Type 0 where
  allow ask deny : Ruling

-- The label is kept for the messages; the description is prose.
pub record PermissionCategory : Type 0 where
  pub key : String
  pub label : Text
  pub default : Ruling
  pub always_ask : Bool
  pub live : Bool

abbrev pub categories : List PermissionCategory
categories =
    record {
      key = "library_install";
      label = codes "Install a library";
      default = ask;
      always_ask = false;
      live = true;
    }
    ∷ record {
      key = "network";
      label = codes "Reach the internet";
      default = ask;
      always_ask = false;
      live = true;
    }
    ∷ record {
      key = "workspace_write";
      label = codes "Write outside the workspace";
      default = deny;
      always_ask = false;
      live = true;
    }
    ∷ record {
      key = "db_connect";
      label = codes "Connect to a database";
      default = ask;
      always_ask = false;
      live = true;
    }
    ∷ record {
      key = "db_write";
      label = codes "Write to a database";
      default = ask;
      always_ask = true;
      live = true;
    }
    ∷ record {
      key = "tool_use";
      label = codes "Use an unapproved tool";
      default = ask;
      always_ask = false;
      live = false;
    }
    ∷ []

abbrev by_key : Dict String PermissionCategory
by_key = map (λ c. (c.key, c)) categories

unfoldable pub category_by_key : String → Option PermissionCategory
unfolding lookup
category_by_key key = lookup key by_key

abbrev pub profile_text : Profile → Text
profile_text auto_approve = codes "auto-approve"
profile_text ask_always = codes "ask-always"
profile_text custom = codes "custom"

abbrev pub ruling_text : Ruling → Text
ruling_text allow = codes "allow"
ruling_text ask = codes "ask"
ruling_text deny = codes "deny"

unfoldable pub normalize : Settings → Option Text → Profile
normalize s profile =
    let candidate = normalised profile in
    if candidate == codes "auto-approve"
    then auto_approve
    else if candidate == codes "ask-always"
    then ask_always
    else if candidate == codes "custom"
    then custom
    else s.agent_permission_profile

unfoldable pub normalize_ruling : Option Text → Ruling → Ruling
normalize_ruling ruling fallback =
    let candidate = normalised ruling in
    if candidate == codes "allow"
    then allow
    else if candidate == codes "ask"
    then ask
    else if candidate == codes "deny"
    then deny
    else fallback

pub record PermissionState : Type 0 where
  pub profile : Text
  pub matrix : Dict String Text
  pub grants : List (String × String)
  pub extra_roots : List String

-- The constructor with its `__post_init__`.
unfoldable pub new_state : Settings → Option Text → PermissionState
new_state s profile = record {
  profile = profile_text (normalize s profile);
  matrix = [];
  grants = [];
  extra_roots = [];
}

-- What the profile says of a category, before the clamp of `always_ask`.
unfoldable pub profile_ruling : Settings → PermissionState → PermissionCategory → Ruling
profile_ruling s p category = elim (normalize s (some p.profile)) [
  | custom ↦ normalize_ruling (lookup category.key p.matrix) category.default
  | auto_approve ↦ allow
  | ask_always ↦ ask
]

abbrev pub is_allow : Ruling → Bool
is_allow allow = true
is_allow _ = false

unfoldable pub ruling_for : Settings → PermissionState → String → Ruling
unfolding profile_ruling
ruling_for s p category_key = elim (category_by_key category_key) [
  | none ↦ ask
  | some category ↦
      let ruling = profile_ruling s p category in
      if category.always_ask && is_allow ruling then ask else ruling
]

pub data SetError : Type 0 where
  unknown_category : String → SetError
  cannot_allow : Text → SetError

pub data SetResult : Type 0 where
  recorded : PermissionState → SetResult
  rejected : SetError → SetResult

-- `set_ruling`; an error is the `ValueError`, and leaves the state alone.
unfoldable pub set_ruling : PermissionState → String → Option Text → SetResult
set_ruling p category_key ruling = elim (category_by_key category_key) [
  | none ↦ rejected (unknown_category category_key)
  | some category ↦
      let resolved = normalize_ruling ruling category.default in
      if category.always_ask && is_allow resolved
      then rejected (cannot_allow category.label)
      else recorded (record p { matrix = insert category_key (ruling_text resolved) p.matrix })
]

unfoldable pub granted : PermissionState → String → String → Bool
granted p category subject = contains (category, subject) p.grants

-- `self.grants` is a set: an element that is there is not added again.
unfoldable pub grant : PermissionState → String → String → PermissionState
grant p category subject =
    if contains (category, subject) p.grants
    then p
    else record p { grants = (category, subject) ∷ p.grants }

unfoldable pub allow_root : PermissionState → String → PermissionState
allow_root p root =
    if root == ""
    then p
    else if contains root p.extra_roots
    then p
    else record p { extra_roots = p.extra_roots ++ (root ∷ []) }

-- The `custom` entry of `to_dict`: the ruling in force for each category.
unfoldable pub effective_rulings : Settings → PermissionState → List (String × Ruling)
effective_rulings s p = map (λ c. (c.key, ruling_for s p c.key)) categories

-- `denial_reason` when nobody was asked and when somebody was, and `unattended_reason`.
pub data Reason : Type 0 where
  denied_by_profile : String → String → Reason
  declined : String → String → Reason
  unattended : String → String → Reason
  timed_out : Reason

pub data HttpRuling : Type 0 where
  allowed : HttpRuling
  refused : Reason → HttpRuling

-- `authorize`, for an action that the user started over HTTP.
unfoldable pub authorize :
    Settings → PermissionState → String → String → HttpRuling × PermissionState
authorize s p category subject =
    if granted p category subject then (allowed, p) else elim (ruling_for s p category) [
      | deny ↦ (refused (denied_by_profile category subject), p)
      | allow ↦ (allowed, grant p category subject)
      | ask ↦ (allowed, grant p category subject)
    ]

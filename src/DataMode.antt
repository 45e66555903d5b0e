-- ===== src/DataMode.antt =====
-- backend/src/core/data_mode.py: what may leave the machine. Dataset names are native strings, and
-- `None` and the empty name are both falsy, as in the source.
pub mod Egress
pub mod Policy
use wizard_w.Prelude.{
  String, Bool, true, false, ◌&&◌, not, List, [], ◌∷◌, ◌++◌, Option, none, some, if◌then◌else◌,
  contains, filter, ◌==◌, string_eq,
}
use wizard_w.Prelude.Dict.{Dict, lookup, insert, erase}
use wizard_w.Prelude.Text.{Text, normalised}
use wizard_w.Config.{Mode, local_only, cloud_only, hybrid, Settings, mode_named, data_mode}
use wizard_w.Providers.{local_providers, cloud_providers, is_cloud, label_for}

abbrev pub outbound_tools : List String
outbound_tools = "web_search" ∷ []

unfoldable pub normalize : Settings → Option Text → Mode
unfolding mode_named
normalize s mode = elim (mode_named (normalised mode)) [ some m ↦ m | none ↦ data_mode s ]

pub record DataPolicy : Type 0 where
  pub schema_only : Bool
  pub per_dataset : Dict String Bool

-- `if name and name in self.per_dataset`, with the entry
unfoldable pub override_for : DataPolicy → Option String → Option Bool
override_for policy none = none
override_for policy (some name) = if name == "" then none else lookup name policy.per_dataset

unfoldable pub schema_only_for : DataPolicy → Option String → Option String → Bool
unfolding override_for
schema_only_for policy dataset origin = elim (override_for policy dataset) [
  | some own ↦ own
  | none ↦ elim (override_for policy origin) [ some shared ↦ shared | none ↦ policy.schema_only ]
]

unfoldable pub set_for : DataPolicy → String → Bool → DataPolicy
set_for policy dataset schema_only = record policy {
  per_dataset = insert dataset schema_only policy.per_dataset;
}

-- The new policy, and whether there was an override.
unfoldable pub clear_for : DataPolicy → String → DataPolicy × Bool
clear_for policy dataset = (
  record policy { per_dataset = erase dataset policy.per_dataset },
  elim (lookup dataset policy.per_dataset) [ none ↦ false | some _ ↦ true ],
)

unfoldable pub forget : DataPolicy → String → DataPolicy
forget policy dataset = record policy { per_dataset = erase dataset policy.per_dataset }

-- The refusal of `check_provider`, with what its sentence names: the provider's label, the role.
pub data Refusal : Type 0 where
  cloud_in_local_only : Text → Text → Refusal
  local_in_cloud_only : Text → Text → Refusal

refusal_in : Mode → Text → Text → Option Refusal
refusal_in local_only provider role =
    if is_cloud provider then some (cloud_in_local_only (label_for provider) role) else none
refusal_in cloud_only provider role =
    if is_cloud provider then none else some (local_in_cloud_only (label_for provider) role)
refusal_in hybrid provider role = none

unfoldable pub check_provider : Settings → Option Text → Text → Text → Option Refusal
unfolding refusal_in
check_provider s mode provider role = refusal_in (normalize s mode) provider role

unfoldable pub allows_provider : Settings → Option Text → Text → Bool
unfolding check_provider
allows_provider s mode provider = elim (check_provider s mode provider []) [
  | none ↦ true
  | some _ ↦ false
]

providers_in : Mode → List Text
providers_in local_only = local_providers
providers_in cloud_only = cloud_providers
providers_in hybrid = local_providers ++ cloud_providers

unfoldable pub allowed_providers : Settings → Option Text → List Text
unfolding providers_in
allowed_providers s mode = providers_in (normalize s mode)

abbrev pub is_local_only : Mode → Bool
is_local_only local_only = true
is_local_only _ = false

unfoldable pub tool_allowed : Settings → Option Text → String → Bool
tool_allowed s mode tool = not (is_local_only (normalize s mode) && contains tool outbound_tools)

unfoldable pub disabled_tools : Settings → Option Text → List String
unfolding tool_allowed
disabled_tools s mode = filter (λ tool. not (tool_allowed s mode tool)) outbound_tools

unfoldable pub should_redact :
    Settings → Option Text → DataPolicy → Text → Option String → Option String → Bool
unfolding schema_only_for
should_redact s mode policy provider dataset origin =
    if is_cloud provider
    then (if is_local_only (normalize s mode) then true else schema_only_for policy dataset origin)
    else false

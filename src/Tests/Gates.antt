-- ===== src/Tests/Gates.antt =====
-- The gates on actions, providers and data.
use wizard_w.Prelude.{
  String, contains, List, pair_beq, ◌≡◌, ◌⊎◌, refl, true, false, [], ◌∷◌, ◌++◌, none, some,
  string_eq,
}
use wizard_w.Prelude.Dict.{lookup}
use wizard_w.Prelude.Text.{
  codes, text_eq, list_beq, normalised, strip, lstrip, is_space, lower, lower_char,
}
use wizard_w.Providers.{is_cloud, exists, describe}
use wizard_w.DataMode.{allows_provider, allowed_providers, should_redact}
use wizard_w.DataMode.Egress.{allows_provider_iff_listed}
use wizard_w.Permissions.{
  allow, ask, deny, ruling_for, granted, grant, category_by_key, profile_ruling, HttpRuling,
  allowed, authorize, PermissionCategory, categories,
}
use wizard_w.Permissions as Permissions
use wizard_w.Agent.State.{refusal}
use wizard_w.Agent.Permit.{permit, settle, refuse}
use wizard_w.Agent.Permit.Gate.{
  permit_sound, permit_refusal, always_ask_needs_answer, refusal_cause,
}
use wizard_w.Agent.Install.{
  Runtime, none_missing, permit_install, install_subject, joined_names, sorted_names, insert_name,
  is_before,
}
use wizard_w.Agent.Install.Consented.{pip_needs_consent}
use wizard_w.Tests.Inputs.{settings, permissions, policy, run, approving, declining}

approved_write : (permit settings approving run permissions "db_write" "orders").0 ≡ true
unfolding permit settle granted ruling_for profile_ruling category_by_key Permissions.normalize
    lookup grant normalised strip lstrip is_space lower lower_char list_beq pair_beq
approved_write = refl

declined_write : (permit settings declining run permissions "db_write" "orders").0 ≡ false
unfolding permit settle granted ruling_for profile_ruling category_by_key Permissions.normalize
    lookup refuse normalised strip lstrip is_space lower lower_char list_beq pair_beq
declined_write = refl

write_is_asked : ruling_for settings permissions "db_write" ≡ ask
unfolding ruling_for profile_ruling category_by_key Permissions.normalize lookup normalised strip
    lstrip is_space lower lower_char list_beq
write_is_asked = refl

anthropic_exists : exists (codes " Anthropic ") ≡ true
unfolding exists describe lookup normalised strip lstrip is_space lower lower_char list_beq
anthropic_exists = refl

local_is_not_redacted :
    should_redact settings none policy (codes "ollama") (some "sales.csv") none ≡ false
unfolding should_redact is_cloud describe lookup normalised strip lstrip is_space lower lower_char
    list_beq
local_is_not_redacted = refl

permit_sound_example :
    ((granted permissions "db_write" "orders" ≡ true)
      ⊎ (ruling_for settings permissions "db_write" ≡ allow)
      ⊎ ((ruling_for settings permissions "db_write" ≡ ask)
          × (run.can_prompt ≡ true)
          × ((approving permissions).0.approved ≡ true)
          × (granted
                (permit settings approving run permissions "db_write" "orders").2
                "db_write"
                "orders"
              ≡ true)))
    × ((permit settings approving run permissions "db_write" "orders").1 ≡ run)
permit_sound_example =
    permit_sound settings approving run permissions "db_write" "orders" approved_write

permit_refusal_example :
    (permit settings declining run permissions "db_write" "orders").1 ≡ record run {
      warnings =
          []
          ++ (refusal (refusal_cause settings declining run permissions "db_write" "orders") ∷ []);
    }
permit_refusal_example =
    permit_refusal settings declining run permissions "db_write" "orders" declined_write

abbrev db_write : PermissionCategory
db_write = record {
  key = "db_write";
  label = codes "Write to a database";
  default = ask;
  always_ask = true;
  live = true;
}

always_ask_needs_answer_example :
    (run.can_prompt ≡ true) × ((approving permissions).0.approved ≡ true)
always_ask_needs_answer_example =
    always_ask_needs_answer settings approving run permissions "db_write" "orders" db_write
      (unfold category_by_key lookup in refl) refl (unfold granted in refl) approved_write

allows_provider_iff_listed_example :
    allows_provider settings (some (codes " Local-Only ")) (codes " Anthropic ")
    ≡ contains
        (normalised (some (codes " Anthropic ")))
        (allowed_providers settings (some (codes " Local-Only ")))
allows_provider_iff_listed_example =
    allows_provider_iff_listed settings (some (codes " Local-Only ")) (codes " Anthropic ")
      anthropic_exists

abbrev lacking : Runtime
lacking = record { missing = "polars" ∷ []; docker = false; pip_error = none }

subject_of_two : install_subject ("scipy" ∷ "polars" ∷ []) ≡ "polars, scipy"
unfolding joined_names sorted_names insert_name is_before
subject_of_two = refl

pip_needs_consent_example :
    let gate =
      permit settings approving run permissions "library_install"
        (install_subject lacking.missing) in
    let out = permit_install settings lacking approving run permissions in
    ((modules : List String)
      → out.pip_for ≡ some modules
      → (modules ≡ lacking.missing)
        × (none_missing lacking.missing ≡ false)
        × (settings.sandbox_allow_runtime_pip ≡ true)
        × (lacking.docker ≡ false)
        × (gate.0 ≡ true))
    × ((m : String) → contains m (sorted_names lacking.missing) ≡ contains m lacking.missing)
    × (out.allowed ≡ true
        → none_missing lacking.missing ≡ false
        → settings.sandbox_allow_runtime_pip ≡ true
        → (gate.0 ≡ true) × (lacking.docker ≡ false → lacking.pip_error ≡ none))
pip_needs_consent_example = pip_needs_consent settings lacking approving run permissions

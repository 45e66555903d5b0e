-- ===== src/Config.antt =====
-- backend/src/config.py: the settings that the modelled parts read, and what is derived from them.
use wizard_w.Prelude.{ℕ, Bool, Option, none, some, if◌then◌else◌, contains, ◌==◌}
use wizard_w.Prelude.Text.{Text, codes, text_eq, normalised}
use wizard_w.Providers.{providers, is_cloud}

pub data Mode : Type 0 where
  local_only cloud_only hybrid : Mode

pub data Profile : Type 0 where
  auto_approve ask_always custom : Profile

-- The fields of `Settings` that the modelled code reads. `data_mode_setting` is `DATA_MODE`, and a
-- time is a number of clock ticks.
pub record Settings : Type 0 where
  pub data_mode_setting : Text
  pub api_provider : Text
  pub data_schema_only : Bool
  pub agent_permission_profile : Profile
  pub agent_consent_timeout : ℕ
  pub agent_turn_timeout : ℕ
  pub max_correction_retries : ℕ
  pub subagent_enabled : Bool
  pub context_docs_enabled : Bool
  pub skills_enabled : Bool
  pub session_ttl : ℕ
  pub session_max_active : ℕ
  pub queue_max_workers : ℕ
  pub job_result_ttl : ℕ
  pub agent_max_iterations : ℕ
  pub agent_observation_chars : ℕ
  pub sandbox_allow_runtime_pip : Bool

-- The membership test in the known modes, with the mode that the text names.
unfoldable pub mode_named : Text → Option Mode
mode_named candidate =
    if candidate == codes "local-only"
    then some local_only
    else if candidate == codes "cloud-only"
    then some cloud_only
    else if candidate == codes "hybrid"
    then some hybrid
    else none

-- The property `Settings.data_mode`.
unfoldable pub data_mode : Settings → Mode
unfolding mode_named
data_mode s = elim (mode_named (normalised (some s.data_mode_setting))) [
  | some chosen ↦ chosen
  | none ↦ if is_cloud s.api_provider then cloud_only else local_only
]

-- `Settings._validate_provider`; `none` is the `ValueError`.
unfoldable pub validate_provider : Text → Option Text
validate_provider value =
    let cleaned = normalised (some value) in
    if contains cleaned providers then some cleaned else none

unfoldable pub resolve_provider : Settings → Option Text → Text
resolve_provider s provider =
    let candidate = normalised provider in
    if contains candidate providers then candidate else s.api_provider

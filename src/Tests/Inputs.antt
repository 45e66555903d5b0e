-- ===== src/Tests/Inputs.antt =====
-- The settings, states and responses that the tests share.
use wizard_w.Prelude.{String, true, false, [], none}
use wizard_w.Prelude.Text.{codes}
use wizard_w.Config.{Settings, ask_always}
use wizard_w.Permissions.{PermissionState}
use wizard_w.Consent.{ConsentDecision}
use wizard_w.DataMode.{DataPolicy}
use wizard_w.Agent.State.{RunState, idle, empty_investigation}

abbrev pub settings : Settings
settings = record {
  data_mode_setting = codes "local-only";
  api_provider = codes "ollama";
  data_schema_only = true;
  agent_permission_profile = ask_always;
  agent_consent_timeout = 120;
  agent_turn_timeout = 0;
  max_correction_retries = 2;
  subagent_enabled = true;
  context_docs_enabled = true;
  skills_enabled = false;
  session_ttl = 3600;
  session_max_active = 2;
  queue_max_workers = 1;
  job_result_ttl = 600;
  agent_max_iterations = 12;
  agent_observation_chars = 4000;
  sandbox_allow_runtime_pip = true;
}

abbrev pub permissions : PermissionState
permissions = record { profile = codes "auto-approve"; matrix = []; grants = []; extra_roots = [] }

abbrev pub policy : DataPolicy
policy = record { schema_only = true; per_dataset = [] }

abbrev pub run : RunState
run = record {
  instruction = codes "Plot sales by month";
  phase = idle;
  code_text = [];
  output = [];
  answer_text = [];
  image = none;
  error = none;
  retry_count = 0;
  blocked = false;
  investigation = empty_investigation;
  iterations_used = 0;
  failed_code = [];
  failed_error = [];
  from_cache = false;
  warnings = [];
  can_prompt = true;
}

-- A user who approves, and one who does not.
abbrev pub approving : PermissionState → ConsentDecision × PermissionState
approving p = (record { approved = true; timed_out = false }, p)

abbrev pub declining : PermissionState → ConsentDecision × PermissionState
declining p = (record { approved = false; timed_out = false }, p)

abbrev pub sales : String
sales = "sales.csv"

abbrev pub hr : String
hr = "hr.csv"

abbrev pub network : String
network = "network"

abbrev pub write_key : String
write_key = "db_write"

abbrev pub library : String
library = "pypi.org"

abbrev pub orders : String
orders = "orders"

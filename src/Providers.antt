-- ===== src/Providers.antt =====
-- backend/src/providers.py: the table of model backends, and which of them leave the machine.
pub mod Boundary
use wizard_w.Prelude.{
  String, Bool, true, false, List, [], ◌∷◌, Option, none, some, map, filter, not,
}
use wizard_w.Prelude.Dict.{Dict, lookup}
use wizard_w.Prelude.Text.{Text, codes, text_eq, normalised}

pub data ProviderKind : Type 0 where
  local cloud : ProviderKind

pub data ApiStyle : Type 0 where
  ollama openai anthropic : ApiStyle

-- The prose fields `hint` and `docs_url` are left out.
pub record ProviderDescriptor : Type 0 where
  pub id : Text
  pub label : Text
  pub kind : ProviderKind
  pub api_style : ApiStyle
  pub default_base_url : Text
  pub requires_key : Bool
  pub url_field : String
  pub key_field : String
  pub openai_suffix : Text

abbrev pub provider_table : List ProviderDescriptor
provider_table =
    record {
      id = codes "ollama";
      label = codes "Ollama";
      kind = local;
      api_style = ollama;
      default_base_url = codes "http://host.docker.internal:11434";
      requires_key = false;
      url_field = "OLLAMA_BASE_URL";
      key_field = "";
      openai_suffix = [];
    }
    ∷ record {
      id = codes "lmstudio";
      label = codes "LM Studio";
      kind = local;
      api_style = openai;
      default_base_url = codes "http://host.docker.internal:1234";
      requires_key = false;
      url_field = "LMSTUDIO_BASE_URL";
      key_field = "LMSTUDIO_API_KEY";
      openai_suffix = codes "/v1";
    }
    ∷ record {
      id = codes "anthropic";
      label = codes "Anthropic";
      kind = cloud;
      api_style = anthropic;
      default_base_url = codes "https://api.anthropic.com/v1";
      requires_key = true;
      url_field = "ANTHROPIC_BASE_URL";
      key_field = "ANTHROPIC_API_KEY";
      openai_suffix = [];
    }
    ∷ record {
      id = codes "openai";
      label = codes "OpenAI";
      kind = cloud;
      api_style = openai;
      default_base_url = codes "https://api.openai.com/v1";
      requires_key = true;
      url_field = "OPENAI_BASE_URL";
      key_field = "OPENAI_API_KEY";
      openai_suffix = [];
    }
    ∷ record {
      id = codes "custom_gateway";
      label = codes "Custom gateway";
      kind = cloud;
      api_style = openai;
      default_base_url = [];
      requires_key = false;
      url_field = "GATEWAY_API_URL";
      key_field = "GATEWAY_API_KEY";
      openai_suffix = [];
    }
    ∷ []

abbrev is_kind_local : ProviderKind → Bool
is_kind_local local = true
is_kind_local cloud = false

abbrev by_id : Dict Text ProviderDescriptor
by_id = map (λ d. (d.id, d)) provider_table

abbrev pub providers : List Text
providers = map (λ d. d.id) provider_table

abbrev pub local_providers : List Text
local_providers = map (λ d. d.id) (filter (λ d. is_kind_local d.kind) provider_table)

abbrev pub cloud_providers : List Text
cloud_providers = map (λ d. d.id) (filter (λ d. not (is_kind_local d.kind)) provider_table)

unfoldable pub describe : Text → Option ProviderDescriptor
unfolding lookup
describe provider = lookup (normalised (some provider)) by_id

unfoldable pub exists : Text → Bool
unfolding describe
exists provider = elim (describe provider) [ none ↦ false | some d ↦ true ]

-- An unknown provider counts as cloud.
unfoldable pub is_cloud : Text → Bool
unfolding describe
is_cloud provider = elim (describe provider) [ none ↦ true | some d ↦ not (is_kind_local d.kind) ]

unfoldable pub is_local : Text → Bool
unfolding is_cloud
is_local provider = not (is_cloud provider)

unfoldable pub label_for : Text → Text
unfolding describe
label_for provider = elim (describe provider) [ none ↦ provider | some d ↦ d.label ]

-- ===== src/Providers/Boundary.antt =====
-- Which names the provider table lets through as local, and which it takes for cloud backends.
use wizard_w.Prelude.{◌≡◌, ◌||◌, not, true, some, arith, contains}
use wizard_w.Prelude.Text.{Text, codes, text_eq, normalised}
use wizard_w.Providers.{exists, is_cloud, is_local, local_providers, cloud_providers}

-- A provider is taken for local exactly when its normalised name is one of `LOCAL_PROVIDERS`, so
-- any name that the table does not hold counts as cloud; and a name exists in the table exactly
-- when it is in `LOCAL_PROVIDERS` or in `CLOUD_PROVIDERS`.
pub is_local_iff_listed :
    (provider : Text)
    → (is_local provider ≡ contains (normalised (some provider)) local_providers)
      × (is_cloud provider ≡ not (contains (normalised (some provider)) local_providers))
      × (exists provider ≡ (
          contains (normalised (some provider)) local_providers
          || contains (normalised (some provider)) cloud_providers))
unfolding is_local exists
is_local_iff_listed provider = (ground arith, ground arith, ground arith)

-- No known name is on both lists.
pub listed_once :
    (provider : Text)
    → exists provider ≡ true
    → contains (normalised (some provider)) cloud_providers
      ≡ not (contains (normalised (some provider)) local_providers)
unfolding exists
listed_once provider known =
    let n = normalised (some provider) in
    ground (
      arith,
      text_eq.decides (codes "ollama") n,
      text_eq.decides (codes "lmstudio") n,
      text_eq.decides (codes "anthropic") n,
      text_eq.decides (codes "openai") n,
      text_eq.decides (codes "custom_gateway") n,
    )

-- ===== src/DataMode/Egress.antt =====
-- The boundary that the data mode draws: which providers pass, and with which data.
use wizard_w.Prelude.{
  ◌≡◌, ◌⊎◌, true, false, String, Option, some, contains, contains-append, arith, string_eq,
}
use wizard_w.Prelude.Text.{Text, text_eq, normalised}
use wizard_w.Config.{Settings}
use wizard_w.Providers.{is_cloud, exists, local_providers, cloud_providers}
use wizard_w.Providers.Boundary.{is_local_iff_listed, listed_once}
use wizard_w.DataMode.{
  DataPolicy, normalize, schema_only_for, allows_provider, allowed_providers, is_local_only,
  should_redact,
}

module _ (s : Settings) (mode : Option Text) where
  -- A provider that the table knows is allowed by the mode exactly when its normalised name is
  -- among the providers that the mode lists as allowed.
  pub allows_provider_iff_listed :
      (provider : Text)
      → exists provider ≡ true
      → allows_provider s mode provider
        ≡ contains (normalised (some provider)) (allowed_providers s mode)
  unfolding allows_provider allowed_providers
  allows_provider_iff_listed provider known =
      let n = normalised (some provider) in
      ground (
        arith,
        is_local_iff_listed provider,
        listed_once provider,
        contains-append n local_providers cloud_providers,
      )

  -- A provider that the mode allows, and whose prompt is not redacted, either runs on this machine,
  -- or the mode is not local-only and the policy in force for the table says that more than the
  -- schema may be sent. No unredacted prompt goes to a cloud provider otherwise.
  unredacted_needs_consent :
      (policy : DataPolicy) (provider : Text) (dataset origin : Option String)
      → should_redact s mode policy provider dataset origin ≡ false
      → (is_cloud provider ≡ false)
        ⊎ ((is_local_only (normalize s mode) ≡ false)
            × (schema_only_for policy dataset origin ≡ false))
  unfolding should_redact
  unredacted_needs_consent policy provider dataset origin sent = ground arith

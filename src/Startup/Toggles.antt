-- ===== src/Startup/Toggles.antt =====
-- `STEP_TOGGLE_MAP`, `_is_step_enabled` and `_step_toggle_reason`.
use hpa_with_bmad.Base.{
  String, Bool, true, ◌&&◌, Option, none, some, List, [], ◌∷◌, Dict, lookup, string_eq, ◌==◌, any,
  lower, strip, ◌+++◌, if◌then◌else◌,
}
use hpa_with_bmad.Regex.{is_space}
use hpa_with_bmad.Versions.{Environ, is_enabled}
use hpa_with_bmad.Startup.{Step, stem_of, member}

abbrev pub step_toggle_map : Dict String (List String)
step_toggle_map =
    ("03-install-cilium-dev", "CILIUM_ENABLED" ∷ [])
    ∷ ("03-install-cilium-online", "CILIUM_ENABLED" ∷ [])
    ∷ ("04-install-cilium-mtls-dev", "MTLS_ENABLED" ∷ "SPIRE_ENABLED" ∷ [])
    ∷ ("04-install-envoy-gateway-dev", "ENVOY_GATEWAY_ENABLED" ∷ [])
    ∷ ("04-validate-envoy-gateway-dev", "ENVOY_GATEWAY_ENABLED" ∷ [])
    ∷ ("06-expose-hubble-ui-dev", "ENVOY_GATEWAY_ENABLED" ∷ [])
    ∷ ("05-install-rook-ceph-staging", "STORAGE_BACKEND" ∷ [])
    ∷ ("05-install-storage-dev", "STORAGE_BACKEND" ∷ [])
    ∷ ("09-provision-local-git-mirror", "GIT_MIRROR_ENABLED" ∷ [])
    ∷ ("10-install-spegel-dev", "SPEGEL_ENABLED" ∷ [])
    ∷ ("11-install-kargo-dev", "KARGO_ENABLED" ∷ [])
    ∷ ("12-install-argocd-dev", "ARGOCD_ENABLED" ∷ [])
    ∷ ("13-install-argorollouts-dev", "ARGO_ROLLOUTS_ENABLED" ∷ [])
    ∷ ("14-install-argoevents-dev", "ARGO_EVENTS_ENABLED" ∷ [])
    ∷ ("18-install-api-key-auth-dev", "API_KEY_AUTH_ENABLED" ∷ [])
    ∷ ("19-install-casdoor-dev", "CASDOOR_ENABLED" ∷ [])
    ∷ (
      "20-install-casbin-dev",
      "CASBIN_ENABLED" ∷ "CASBIN_RBAC_ENABLED" ∷ "CASBIN_REBAC_ENABLED" ∷ "CASBIN_ABAC_ENABLED"
          ∷ [],
    )
    ∷ ("21-install-casbin-rebac-dev", "CASBIN_REBAC_ENABLED" ∷ [])
    ∷ ("22-install-casbin-abac-dev", "CASBIN_ABAC_ENABLED" ∷ [])
    ∷ ("23-install-infisical-dev", "INFISICAL_ENABLED" ∷ [])
    ∷ ("24-install-cilium-mtls-dev", "MTLS_ENABLED" ∷ "SPIRE_ENABLED" ∷ [])
    ∷ ("25-install-openapi-dev", "SWAGGER_UI_ENABLED" ∷ [])
    ∷ ("26-install-backstage-dev", "BACKSTAGE_ENABLED" ∷ [])
    ∷ ("28-install-observability-ui-routes-dev", "GRAFANA_ENABLED" ∷ [])
    ∷ ("35-install-victoria-metrics-dev", "VICTORIA_METRICS_ENABLED" ∷ [])
    ∷ ("36-install-vmlogs-dev", "VICTORIA_METRICS_ENABLED" ∷ [])
    ∷ ("37-install-otel-collector-dev", "OTEL_ENABLED" ∷ [])
    ∷ ("38-install-grafana-alertmanager-dev", "GRAFANA_ENABLED" ∷ "ALERTMANAGER_ENABLED" ∷ [])
    ∷ ("39-install-grafana-hubble-routes-dev", "GRAFANA_ENABLED" ∷ [])
    ∷ []

-- `os.environ.get("HPDC_STORAGE_BACKEND", "local-path").strip().lower()`
abbrev pub backend_of : Environ → String
backend_of env = elim (lookup "HPDC_STORAGE_BACKEND" env) [
  | none ↦ "local-path"
  | some b ↦ lower (strip is_space b)
]

-- `_is_step_enabled`
unfoldable pub is_step_enabled : Environ → Step → Bool
is_step_enabled env step = elim (lookup (stem_of step) step_toggle_map) [
  | none ↦ true
  | some toggle_vars ↦
      if member "STORAGE_BACKEND" toggle_vars
      then if stem_of step == "05-install-rook-ceph-staging"
        then backend_of env == "rook-ceph" && is_enabled env "STAGING"
        else true
      else any (is_enabled env) toggle_vars
]

abbrev pub toggle_names : List String → String
toggle_names [] = ""
toggle_names (t ∷ []) = "HPDC_" +++ t +++ "=false"
toggle_names (t ∷ u ∷ vars) = "HPDC_" +++ t +++ "=false" +++ " / " +++ toggle_names (u ∷ vars)

-- `_step_toggle_reason`; a step that is disabled has a line in the map
unfoldable pub step_toggle_reason : Environ → Step → Option String
step_toggle_reason env step =
    if is_step_enabled env step
    then none
    else if stem_of step == "05-install-rook-ceph-staging"
    then some (
        "[SKIP] "
        +++ stem_of step
        +++ ": rook-ceph is staging-only "
        +++ "(HPDC_STAGING_ENABLED=false; dev also uses HPDC_STORAGE_BACKEND="
        +++ backend_of env
        +++ ")")
    else some (
        "[SKIP] "
        +++ stem_of step
        +++ ": component disabled via "
        +++ toggle_names (elim (lookup (stem_of step) step_toggle_map) [
          | none ↦ "UNKNOWN" ∷ []
          | some toggle_vars ↦ toggle_vars
        ]))

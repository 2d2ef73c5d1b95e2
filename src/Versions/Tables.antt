-- ===== src/Versions/Tables.antt =====
-- The tables of component_versions.py.
use hpa_with_bmad.Base.{String, Bool, true, false, List, [], ◌∷◌, Dict}

-- CORE_TOGGLES
abbrev pub core_toggles : List String
core_toggles = "HPDC_CILIUM_ENABLED" ∷ "HPDC_HUBBLE_ENABLED" ∷ "HPDC_SPEGEL_ENABLED" ∷ []

-- ENABLED_DEFAULTS
abbrev pub enabled_defaults : Dict String Bool
enabled_defaults =
    ("HPDC_CILIUM_ENABLED", true)
    ∷ ("HPDC_HUBBLE_ENABLED", true)
    ∷ ("HPDC_SPEGEL_ENABLED", true)
    ∷ ("HPDC_GIT_MIRROR_ENABLED", true)
    ∷ ("HPDC_KARGO_ENABLED", false)
    ∷ ("HPDC_ARGOCD_ENABLED", false)
    ∷ ("HPDC_ARGO_ROLLOUTS_ENABLED", false)
    ∷ ("HPDC_ARGO_EVENTS_ENABLED", false)
    ∷ ("HPDC_ENVOY_GATEWAY_ENABLED", true)
    ∷ ("HPDC_CASDOOR_ENABLED", true)
    ∷ ("HPDC_CASBIN_ENABLED", true)
    ∷ ("HPDC_PULSAR_ENABLED", true)
    ∷ ("HPDC_INFISICAL_ENABLED", false)
    ∷ ("HPDC_STAGING_ENABLED", false)
    ∷ ("HPDC_BACKSTAGE_ENABLED", false)
    ∷ ("HPDC_GRAFANA_ENABLED", false)
    ∷ ("HPDC_VICTORIA_METRICS_ENABLED", false)
    ∷ ("HPDC_OTEL_ENABLED", false)
    ∷ ("HPDC_ALERTMANAGER_ENABLED", false)
    ∷ ("HPDC_SWAGGER_UI_ENABLED", false)
    ∷ ("HPDC_MTLS_ENABLED", false)
    ∷ ("HPDC_SPIRE_ENABLED", false)
    ∷ ("HPDC_API_KEY_AUTH_ENABLED", false)
    ∷ ("HPDC_CASBIN_RBAC_ENABLED", false)
    ∷ ("HPDC_CASBIN_REBAC_ENABLED", false)
    ∷ ("HPDC_CASBIN_ABAC_ENABLED", false)
    ∷ []

-- DEFAULTS
abbrev pub version_defaults : Dict String String
version_defaults =
    ("HPDC_KUBERNETES_VERSION", "1.35.2")
    ∷ ("HPDC_CILIUM_VERSION", "1.20.1")
    ∷ ("HPDC_CILIUM_ENVOY_TAG", "v1.37.5-1786810558-766ccfb37260a43e9d228837aa84ce3faf9f64e7")
    ∷ ("HPDC_HUBBLE_UI_VERSION", "v0.13.5")
    ∷ ("HPDC_SPIRE_VERSION", "1.15.3")
    ∷ ("HPDC_ROOK_CEPH_VERSION", "1.20.6")
    ∷ ("HPDC_LOCAL_PATH_PROVISIONER_VERSION", "v0.0.37")
    ∷ ("HPDC_SPEGEL_VERSION", "0.7.4")
    ∷ ("HPDC_ARGOCD_VERSION", "3.5.1")
    ∷ ("HPDC_ARGOCD_REDIS_VERSION", "8.2.8-alpine")
    ∷ ("HPDC_KARGO_VERSION", "1.11.2")
    ∷ ("HPDC_KARGO_CHART_VERSION", "1.11.2")
    ∷ ("HPDC_CERT_MANAGER_CHART_VERSION", "v1.21.1")
    ∷ ("HPDC_ARGO_ROLLOUTS_VERSION", "1.9.1")
    ∷ ("HPDC_ROLLOUTS_NGINX_VERSION", "1.27-alpine")
    ∷ ("HPDC_ARGO_EVENTS_VERSION", "1.9.11")
    ∷ ("HPDC_EVENTS_ALPINE_VERSION", "3.20")
    ∷ ("HPDC_ENVOY_GATEWAY_VERSION", "1.9.0")
    ∷ ("HPDC_PULSAR_VERSION", "4.2.4")
    ∷ ("HPDC_PULSAR_OPERATOR_VERSION", "v0.21.0")
    ∷ ("HPDC_CASDOOR_VERSION", "3.159.0")
    ∷ ("HPDC_INFISICAL_VERSION", "v0.162.24")
    ∷ ("HPDC_GRAFANA_VERSION", "13.2.0")
    ∷ ("HPDC_VICTORIA_METRICS_VERSION", "1.150.0")
    ∷ ("HPDC_VICTORIA_LOGS_VERSION", "v1.52.0")
    ∷ ("HPDC_OTEL_COLLECTOR_VERSION", "0.159.0")
    ∷ ("HPDC_ALERTMANAGER_VERSION", "v0.34.0")
    ∷ ("HPDC_BACKSTAGE_VERSION", "1.54.0")
    ∷ ("HPDC_SWAGGER_UI_VERSION", "v5.32.14")
    ∷ ("HPDC_GIT_MIRROR_IMAGE_VERSION", "2.54.0")
    ∷ ("HPDC_KUBECTL_VERSION", "1.35.2")
    ∷ []

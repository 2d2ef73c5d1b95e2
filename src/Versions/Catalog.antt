-- ===== src/Versions/Catalog.antt =====
-- The image catalog of component_versions.py.
use hpa_with_bmad.Base.{String, List, [], ◌∷◌, Dict}

-- An image: its repository, the template of its tag, and the template of its marker's path.
pub record Image : Type 0 where
  pub repo : String
  pub tag : String
  pub marker : String

abbrev image : String → String → String → Image
image repo tag marker = record { repo = repo; tag = tag; marker = marker }

-- CATALOG
abbrev pub catalog : Dict String (List Image)
catalog =
    (
      "cilium",
      image "quay.io/cilium/cilium" "v{cilium_version}" "cilium/images/cilium-v{cilium_version}"
          ∷ image "quay.io/cilium/operator-generic" "v{cilium_version}"
              "cilium/images/operator-generic-v{cilium_version}"
          ∷ image "quay.io/cilium/hubble-ui" "{hubble_ui_version}"
              "cilium/images/hubble-ui-{hubble_ui_version}"
          ∷ image "quay.io/cilium/cilium-envoy" "{cilium_envoy_tag}"
              "cilium/images/cilium-envoy-v1.37.5"
          ∷ image "ghcr.io/spiffe/spire-server" "{spire_version}"
              "cilium/images/spire-server-{spire_version}"
          ∷ image "ghcr.io/spiffe/spire-agent" "{spire_version}"
              "cilium/images/spire-agent-{spire_version}"
          ∷ [],
    )
    ∷ (
      "rook-ceph",
      image "quay.io/rook/ceph" "v{rook_ceph_version}"
            "rook-ceph/images/rook-ceph-v{rook_ceph_version}"
          ∷ [],
    )
    ∷ (
      "spegel",
      image "ghcr.io/spegel-org/spegel" "v{spegel_version}" "spegel/images/spegel-v{spegel_version}"
          ∷ [],
    )
    ∷ (
      "local-path-provisioner",
      image "rancher/local-path-provisioner" "{local_path_provisioner_version}"
            "storage/images/local-path-provisioner-{local_path_provisioner_version}"
          ∷ [],
    )
    ∷ (
      "argocd",
      image "quay.io/argoproj/argocd" "v{argocd_version}" "argocd/images/argocd-v{argocd_version}"
          ∷ image "docker.io/library/redis" "{argocd_redis_version}"
              "argocd/images/redis-{argocd_redis_version}"
          ∷ [],
    )
    ∷ (
      "kargo",
      image "ghcr.io/akuity/kargo" "v{kargo_version}" "kargo/images/kargo-v{kargo_version}" ∷ [],
    )
    ∷ (
      "argo-rollouts",
      image "quay.io/argoproj/argo-rollouts" "v{argo_rollouts_version}"
            "argo-rollouts/images/argo-rollouts-v{argo_rollouts_version}"
          ∷ image "nginx" "{rollouts_nginx_version}"
              "argo-rollouts/images/rollouts-nginx-{rollouts_nginx_version}"
          ∷ [],
    )
    ∷ (
      "argo-events",
      image "quay.io/argoproj/argo-events" "v{argo_events_version}"
            "argo-events/images/argo-events-v{argo_events_version}"
          ∷ image "alpine" "{events_alpine_version}"
              "argo-events/images/events-alpine-{events_alpine_version}"
          ∷ [],
    )
    ∷ (
      "envoy-gateway",
      image "docker.io/envoyproxy/gateway" "v{envoy_gateway_version}"
            "envoy-gateway/images/envoy-gateway-v{envoy_gateway_version}"
          ∷ [],
    )
    ∷ (
      "pulsar",
      image "docker.io/apachepulsar/pulsar" "{pulsar_version}"
            "pulsar/images/pulsar-{pulsar_version}"
          ∷ image "docker.io/streamnative/pulsar-resources-operator" "{pulsar_operator_version}"
              "pulsar/images/pulsar-resources-operator-{pulsar_operator_version}"
          ∷ [],
    )
    ∷ (
      "casdoor",
      image "docker.io/casbin/casdoor" "{casdoor_version}"
            "casdoor/images/casdoor-{casdoor_version}"
          ∷ [],
    )
    ∷ (
      "infisical",
      image "docker.io/infisical/infisical" "{infisical_version}"
            "infisical/images/infisical-{infisical_version}"
          ∷ [],
    )
    ∷ (
      "grafana",
      image "docker.io/grafana/grafana" "{grafana_version}"
            "grafana/images/grafana-{grafana_version}"
          ∷ [],
    )
    ∷ (
      "victoria-metrics",
      image "victoriametrics/vmstorage" "v{victoria_metrics_version}-cluster"
            "victoria-metrics/images/vmstorage-v{victoria_metrics_version}-cluster"
          ∷ image "victoriametrics/vminsert" "v{victoria_metrics_version}-cluster"
              "victoria-metrics/images/vminsert-v{victoria_metrics_version}-cluster"
          ∷ image "victoriametrics/vmselect" "v{victoria_metrics_version}-cluster"
              "victoria-metrics/images/vmselect-v{victoria_metrics_version}-cluster"
          ∷ image "victoriametrics/victoria-logs" "{victoria_logs_version}"
              "victoria-metrics/images/victoria-logs-{victoria_logs_version}"
          ∷ image "otel/opentelemetry-collector-contrib" "{otel_collector_version}"
              "victoria-metrics/images/otel-collector-{otel_collector_version}"
          ∷ [],
    )
    ∷ (
      "alertmanager",
      image "prom/alertmanager" "{alertmanager_version}"
            "monitoring/images/alertmanager-{alertmanager_version}"
          ∷ [],
    )
    ∷ (
      "backstage",
      image "ghcr.io/backstage/backstage" "{backstage_version}"
            "backstage/images/backstage-{backstage_version}"
          ∷ [],
    )
    ∷ (
      "swagger-ui",
      image "docker.io/swaggerapi/swagger-ui" "{swagger_ui_version}"
            "openapi/images/swagger-ui-{swagger_ui_version}"
          ∷ [],
    )
    ∷ (
      "git-mirror-image",
      image "alpine/git" "{git_mirror_image_version}"
            "git/images/alpine-git-{git_mirror_image_version}"
          ∷ [],
    )
    ∷ (
      "kubectl",
      image "registry.k8s.io/kubectl" "v{kubernetes_version}"
            "security/images/kubectl-v{kubernetes_version}"
          ∷ [],
    )
    ∷ []

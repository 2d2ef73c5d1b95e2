-- ===== src/EdgeCert/Cluster.antt =====
-- The commands of scripts/gitops/gen-edge-cert.py on the cluster: the namespace and the TLS secret.
use hpa_with_bmad.Base.{
  ℕ, eqb, String, Bool, false, ◌&&◌, ◌||◌, Option, none, some, List, [], ◌∷◌, lookup, string_eq,
  ◌==◌, ◌+++◌, occurs, lower, any, if◌then◌else◌,
}
use hpa_with_bmad.Json.{Value, str, null, bool, num, arr, obj, as_object}
use hpa_with_bmad.EdgeCert.{Answer, Disk, Tools, is_ok, stripped}

-- A command on the cluster that may raise; what was done before stays done.
abbrev pub Cmd : Type 0 → Type 0 → Type 0
Cmd Cluster A = Cluster → Option A × Cluster

module _ {Cluster A B : Type 0} where
  abbrev pub continue : (A → Cmd Cluster B) → Option A × Cluster → Option B × Cluster
  continue f (none, cluster) = (none, cluster)
  continue f (some a, cluster) = f a cluster

  infixl 5 ◌>>=◌
  abbrev pub ◌>>=◌ : Cmd Cluster A → (A → Cmd Cluster B) → Cmd Cluster B
  m >>= f = λ cluster. continue f (m cluster)

abbrev pub pure : {Cluster A : Type 0} → A → Cmd Cluster A
pure a = λ cluster. (some a, cluster)

abbrev holds_one : String → List String → Bool
holds_one text words = any (λ w. occurs w text) words

-- `_cluster_error_detail`
unfoldable pub cluster_error_detail : Answer → String
cluster_error_detail result =
    let err = stripped result.stderr in
    let out = stripped result.stdout in
    let said = if err == "" then out else err in
    let msg = if said == "" then "unknown error" else said in
    if holds_one (lower msg)
      ("unauthorized" ∷ "forbidden" ∷ "authentication" ∷ "token" ∷ "login" ∷ [])
    then "authentication/authorization error: " +++ msg
    else if holds_one (lower msg)
        ("connection" ∷ "connect" ∷ "timeout" ∷ "refused" ∷ "no route" ∷ "dns" ∷ "unreachable" ∷ [])
    then "cluster unreachable: " +++ msg
    else msg

-- `"authentication" in detail or "cluster unreachable" in detail`
unfoldable pub is_access_issue : String → Bool
is_access_issue detail = occurs "authentication" detail || occurs "cluster unreachable" detail

-- `data.get("data", {}).get("tls.crt", "")`; `none` is the AttributeError of a value that is no object
unfoldable pub secret_cert : Value → Option Value
secret_cert document = elim (as_object document) [
  | none ↦ none
  | some fields ↦ elim (lookup "data" fields) [
    | none ↦ some (str "")
    | some entries ↦ elim (as_object entries) [
      | none ↦ none
      | some texts ↦ elim (lookup "tls.crt" texts) [ none ↦ some (str "") | some v ↦ some v ]
    ]
  ]
]

abbrev text_of : Value → Option String
text_of (str s) = some s
text_of null = none
text_of (bool _) = none
text_of (num _) = none
text_of (arr _) = none
text_of (obj _) = none

abbrev get_secret : List String
get_secret = "get" ∷ "secret" ∷ "hpdc-edge-tls" ∷ "-n" ∷ "envoy-gateway-system" ∷ []

abbrev pub get_secret_json : List String
get_secret_json =
    "get" ∷ "secret" ∷ "hpdc-edge-tls" ∷ "-n" ∷ "envoy-gateway-system" ∷ "-o" ∷ "json" ∷ []

abbrev pub delete_words : List String
delete_words = "delete" ∷ "secret" ∷ "hpdc-edge-tls" ∷ "-n" ∷ "envoy-gateway-system" ∷ []

abbrev get_namespace : List String
get_namespace = "get" ∷ "namespace" ∷ "envoy-gateway-system" ∷ []

module _ {Cluster : Type 0} (tools : Tools Cluster) where
  abbrev pub create_words : List String
  create_words =
      "create" ∷ "secret" ∷ "tls" ∷ "hpdc-edge-tls" ∷ "--cert" ∷ tools.cert_path ∷ "--key"
      ∷ tools.key_path ∷ "-n" ∷ "envoy-gateway-system" ∷ []

  -- The certificate that the cluster's secret holds, as far as it can be read: outside `none` is
  -- an exception, inside it is False.
  unfoldable pub cluster_cert : String → Option (Option String)
  cluster_cert stdout = elim (tools.json_loads stdout) [
    | none ↦ some none
    | some document ↦ elim (secret_cert document) [
      | none ↦ none
      | some value ↦ elim (text_of value) [
        | none ↦ some none
        | some encoded ↦ some (tools.b64decode encoded)
      ]
    ]
  ]

  -- The comparison of the two moduli, both of files on disk.
  unfoldable pub same_modulus : Option Answer → Option Answer → Option Bool
  same_modulus none _ = none
  same_modulus (some cert_mod) none = none
  same_modulus (some cert_mod) (some key_mod) =
      some (is_ok cert_mod && is_ok key_mod && stripped cert_mod.stdout == stripped key_mod.stdout)

  module _ (disk : Disk) where
    -- `_has_kubectl_cluster`
    unfoldable pub has_kubectl_cluster : Cmd Cluster Bool
    has_kubectl_cluster = do
      result ← tools.kubectl disk ("get" ∷ "--raw=/livez" ∷ "--request-timeout=5s" ∷ [])
      pure (is_ok result)

    -- `ensure_namespace` once the namespace was asked for.
    unfoldable pub create_namespace : Answer → Cmd Cluster ℕ
    create_namespace result =
        if is_ok result
        then pure 0
        else if is_access_issue (cluster_error_detail result)
        then pure 1
        else do
          created ← tools.kubectl disk ("create" ∷ "namespace" ∷ "envoy-gateway-system" ∷ [])
          pure (if is_ok created then 0 else 1)

    -- `ensure_namespace`
    unfoldable pub ensure_namespace : Cmd Cluster ℕ
    ensure_namespace = do result ← tools.kubectl disk get_namespace; create_namespace result

    -- `_secret_exists`: without access to the cluster too it is False
    unfoldable pub secret_exists : Cmd Cluster Bool
    secret_exists = do result ← tools.kubectl disk get_secret; pure (is_ok result)

    -- The two moduli of the files on disk.
    unfoldable pub moduli : Option Bool
    moduli =
        same_modulus
          (tools.openssl ("x509" ∷ "-in" ∷ tools.cert_path ∷ "-noout" ∷ "-modulus" ∷ []) disk)
          (tools.openssl ("pkey" ∷ "-in" ∷ tools.key_path ∷ "-noout" ∷ "-modulus" ∷ []) disk)

    -- `_secret_matches_disk` once the secret was read.
    unfoldable pub matches_disk : Answer → Option Bool
    matches_disk result =
        if is_ok result
        then elim (cluster_cert result.stdout) [
          | none ↦ none
          | some none ↦ some false
          | some (some cert) ↦ elim disk.cert [
            | none ↦ some false
            | some disk_cert ↦ if cert == disk_cert then moduli else some false
          ]
        ]
        else some false

    abbrev pub judged_match : Answer → Cmd Cluster Bool
    judged_match result cluster = (matches_disk result, cluster)

    -- `_secret_matches_disk`
    unfoldable pub secret_matches_disk : Cmd Cluster Bool
    secret_matches_disk = do result ← tools.kubectl disk get_secret_json; judged_match result

    -- `_create_secret`
    unfoldable pub create_secret : Cmd Cluster ℕ
    create_secret = do
      result ← tools.kubectl disk create_words
      pure (if is_ok result then 0 else 1)

    -- The secret is replaced; what the deletion answers is not read.
    unfoldable pub recreate_secret : Cmd Cluster ℕ
    recreate_secret = do _ ← tools.kubectl disk delete_words; create_secret

    -- `ensure_secret` where the secret exists.
    unfoldable pub refresh_secret : Cmd Cluster ℕ
    refresh_secret = do same ← secret_matches_disk; if same then pure 0 else recreate_secret

    -- `ensure_secret`
    unfoldable pub ensure_secret : Cmd Cluster ℕ
    ensure_secret = do exists ← secret_exists; if exists then refresh_secret else create_secret

    -- What `apply` does on a cluster that answers.
    unfoldable pub ensure_all : Cmd Cluster ℕ
    ensure_all = do rc ← ensure_namespace; if eqb rc 0 then ensure_secret else pure 1

    -- What `apply` does on the cluster.
    unfoldable pub deploy : Cmd Cluster ℕ
    deploy = do reached ← has_kubectl_cluster; if reached then ensure_all else pure 1

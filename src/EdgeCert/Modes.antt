-- ===== src/EdgeCert/Modes.antt =====
-- The modes of scripts/gitops/gen-edge-cert.py and its exit status.
use hpa_with_bmad.Base.{
  ℕ, zero, suc, String, Bool, false, ◌||◌, Option, none, some, List, [], ◌∷◌, ◌++◌, string_eq,
  ◌+++◌, occurs, starts_with, strip_prefix, if◌then◌else◌,
}
use hpa_with_bmad.Regex.{is_space, after}
use hpa_with_bmad.EdgeCert.{
  Disk, Tools, absent, unreadable, readable, check_tools, CertState, valid, missing, invalid,
  cert_state, generate_cert,
}
use hpa_with_bmad.EdgeCert.Cluster.{deploy}

-- `["\']?`
abbrev unquoted : String → String
unquoted s = elim (strip_prefix "\"" s) [
  | some rest ↦ rest
  | none ↦ elim (strip_prefix "'" s) [ none ↦ s | some rest ↦ rest ]
]

-- `re.search(key + r':\s*["\']?' + value, text)`; no value starts with a space or a quotation mark, so
-- the greedy runs are the only ones that can match, and an optional mark at the end matches always
unfoldable pub assigns : String → String → String → Bool
assigns key value String.[] = false
assigns key value (String.◌∷◌ c s) =
    elim (strip_prefix key (String.◌∷◌ c s)) [
      | none ↦ false
      | some rest ↦ starts_with value (unquoted (after is_space rest))
    ]
    || assigns key value s

abbrev fail_unless : Bool → String → List String
fail_unless ok failure = if ok then [] else failure ∷ []

-- `validate_manifests`
unfoldable pub validate_text : String → List String
validate_text manifest =
    fail_unless (assigns "name:" "hpdc-edge-tls" manifest)
      "envoy-gateway.yaml does not reference Secret/hpdc-edge-tls"
    ++ (fail_unless (assigns "protocol:" "HTTPS" manifest)
          "envoy-gateway.yaml does not configure an HTTPS listener"
        ++ (fail_unless (occurs "envoy-gateway-system" manifest)
              "envoy-gateway.yaml does not target namespace envoy-gateway-system"
            ++ fail_unless (occurs "certificateRefs" manifest)
                "envoy-gateway.yaml has no certificateRefs on its HTTPS listener"))

pub data Mode : Type 0 where
  check_mode : Mode
  dry_run_mode : Mode
  apply_mode : Bool → Mode

-- What `main` returns: an exception is caught.
abbrev pub status : Option ℕ → ℕ
status none = 1
status (some rc) = rc

module _ {Cluster : Type 0} (tools : Tools Cluster) where
  -- `_prep`, with `ensure_files` and `validate_manifests`
  unfoldable pub prep : List String
  prep = elim (check_tools tools) [
    | failure ∷ failures ↦ failure ∷ failures
    | [] ↦
        if tools.provisioned
        then elim tools.manifest [
          | absent ↦ "prerequisite check failed" ∷ []
          | unreadable why ↦ ("envoy-gateway.yaml unreadable: " +++ why) ∷ []
          | readable manifest ↦ validate_text manifest
        ]
        else "prerequisite check failed" ∷ []
  ]

  -- `check` and `dry_run`, which differ in what they print.
  unfoldable pub check : Disk → Option ℕ
  check disk = elim prep [
    | failure ∷ failures ↦ some 1
    | [] ↦ elim (cert_state tools disk) [
      | none ↦ none
      | some (valid, _) ↦ some 0
      | some (missing, _) ↦ some 0
      | some (invalid, _) ↦ some 1
    ]
  ]

  -- The part of `apply` on the cluster, for the disk that it finds.
  unfoldable pub deploy_from : Disk → Cluster → Option ℕ × Disk × Cluster
  deploy_from disk cluster = let (rc, deployed) = deploy tools disk cluster in (rc, disk, deployed)

  -- `apply` from the generation of the certificate on.
  unfoldable pub after_generation : Cluster → Option ℕ × Disk → Option ℕ × Disk × Cluster
  after_generation cluster (none, disk) = (none, disk, cluster)
  after_generation cluster (some zero, disk) = deploy_from disk cluster
  after_generation cluster (some (suc _), disk) = (some 1, disk, cluster)

  -- `apply` for the state of the certificate.
  unfoldable pub apply_for :
      Bool → Disk → Cluster → Option (CertState × String) → Option ℕ × Disk × Cluster
  apply_for force disk cluster none = (none, disk, cluster)
  apply_for force disk cluster (some (valid, _)) = deploy_from disk cluster
  apply_for force disk cluster (some (missing, _)) =
      after_generation cluster (generate_cert tools disk)
  apply_for force disk cluster (some (invalid, _)) =
      let generated = after_generation cluster (generate_cert tools disk) in
      if force then generated else (some 1, disk, cluster)

  -- `apply`
  unfoldable pub apply : Bool → Disk → Cluster → Option ℕ × Disk × Cluster
  apply force disk cluster = elim prep [
    | failure ∷ failures ↦ (some 1, disk, cluster)
    | [] ↦ apply_for force disk cluster (cert_state tools disk)
  ]

  -- `main`, for arguments that argparse takes
  unfoldable pub main : Mode → Disk → Cluster → ℕ × Disk × Cluster
  main check_mode disk cluster = (status (check disk), disk, cluster)
  main dry_run_mode disk cluster = (status (check disk), disk, cluster)
  main (apply_mode force) disk cluster =
      let (rc, left, deployed) = apply force disk cluster in (status rc, left, deployed)

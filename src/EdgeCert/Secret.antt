-- ===== src/EdgeCert/Secret.antt =====
-- What the cluster holds after an apply.
use hpa_with_bmad.Base.{
  ℕ, zero, suc, eqb, String, Bool, true, false, Option, none, some, List, ◌∷◌, string_eq, ◌==◌,
  eq_iff, ◌≡◌, ◌⊎◌, inl, inr, refl, arith, Bool-cases, Option-cases, if◌then◌else◌, ap, ◌∙◌, subst,
}
use hpa_with_bmad.EdgeCert.{
  Answer, Disk, Tools, is_ok, CertState, valid, missing, invalid, cert_state,
}
use hpa_with_bmad.EdgeCert.Cluster.{
  Cmd, continue, pure, judged_match, delete_words, create_words, get_secret_json, cluster_cert,
  moduli, matches_disk, secret_exists, secret_matches_disk, create_secret, recreate_secret,
  refresh_secret, ensure_secret, ensure_namespace, ensure_all, has_kubectl_cluster, deploy,
}
use hpa_with_bmad.EdgeCert.Modes.{
  apply_mode, main, prep, apply, apply_for, after_generation, deploy_from,
}
use hpa_with_bmad.EdgeCert.Outcome.{HasValid, main-IsSafe, List-cases, status_zero}

-- A command that returns ended in a state of which `P` holds.
abbrev Gives : {Cluster A : Type 0} → (A → Cluster → Type 0) → Option A × Cluster → Type 0
Gives P (none, cluster) = Unit {0}
Gives P (some a, cluster) = P a cluster

bind-Gives :
    {Cluster A B : Type 0} (P : B → Cluster → Type 0) (f : A → Cmd Cluster B)
    (r : Option A × Cluster)
    → ((a : A) → r.0 ≡ some a → Gives P (f a r.1))
    → Gives P (continue f r)
bind-Gives P f (none, cluster) h = tt
bind-Gives P f (some a, cluster) h = h a refl

Gives-at :
    {Cluster A : Type 0} (P : A → Cluster → Type 0) (r : Option A × Cluster) (a : A)
    → Gives P r
    → r.0 ≡ some a
    → P a r.1
Gives-at P (none, cluster) a h e = absurd (cc)
Gives-at P (some b, cluster) a h e = subst (λ c. P c cluster) (cc) h

-- An apply that ends with 0 came to the cluster, with the disk that it leaves.
Deployed : {Cluster : Type 0} → Tools Cluster → Cluster → Option ℕ × Disk × Cluster → Type 0
Deployed tools cluster r =
    r.0 ≡ some 0 → ((deploy tools r.1 cluster).0 ≡ some 0) × (r.2 ≡ (deploy tools r.1 cluster).1)

module _ {Cluster : Type 0} (tools : Tools Cluster) (cluster : Cluster) where
  after_generation-Deployed :
      (generated : Option ℕ × Disk)
      → Deployed tools cluster (after_generation tools cluster generated)
  unfolding after_generation deploy_from Deployed
  after_generation-Deployed (none, disk) h = absurd (cc)
  after_generation-Deployed (some zero, disk) h = (h, refl)
  after_generation-Deployed (some (suc n), disk) h = absurd (ground (arith, h))

  apply_for-Deployed :
      (force : Bool) (disk : Disk) (state : Option (CertState × String))
      → Deployed tools cluster (apply_for tools force disk cluster state)
  unfolding apply_for deploy_from Deployed
  apply_for-Deployed force disk none h = absurd (cc)
  apply_for-Deployed force disk (some (valid, reason)) h = (h, refl)
  apply_for-Deployed force disk (some (missing, reason)) h = after_generation-Deployed _ h
  apply_for-Deployed false disk (some (invalid, reason)) h = absurd (ground (arith, h))
  apply_for-Deployed true disk (some (invalid, reason)) h = after_generation-Deployed _ h

  apply-Deployed :
      (force : Bool) (disk : Disk) → Deployed tools cluster (apply tools force disk cluster)
  unfolding apply Deployed
  apply-Deployed force disk = elim (List-cases (prep tools)) [
    | inr (f, fs, p) ↦ rw (p, apply) (λ h. absurd (ground (arith, h)))
    | inl p ↦ rw (p, apply) (apply_for-Deployed force disk (cert_state tools disk))
  ]

-- A valid pair is there.
valid_there :
    {Cluster : Type 0} (tools : Tools Cluster) (disk : Disk)
    → HasValid tools disk
    → (cert : String) × (key : String) × (disk.cert ≡ some cert) × (disk.key ≡ some key)
unfolding cert_state
valid_there tools disk (reason, e) = elim (Option-cases disk.cert) [
  | inl c ↦ absurd (ground (arith, e, c))
  | inr (cert, c) ↦ elim (Option-cases disk.key) [
    | inl k ↦ absurd (ground (arith, e, c, k))
    | inr (key, k) ↦ (cert, key, c, k)
  ]
]

module _ {Cluster : Type 0} (tools : Tools Cluster) (secret : Cluster → Option (String × String))
    -- `kubectl get` changes nothing
    (get_keeps : (disk : Disk) (words : List String) (cluster : Cluster)
      → (tools.kubectl disk ("get" ∷ words) cluster).1 ≡ cluster)
    -- the secret that `kubectl create secret tls` reports as created holds the two files
    (create_writes : (disk : Disk) (cluster : Cluster) (answer : Answer) (cert key : String)
      → (tools.kubectl disk (create_words tools) cluster).0 ≡ some answer
      → is_ok answer ≡ true
      → disk.cert ≡ some cert
      → disk.key ≡ some key
      → secret (tools.kubectl disk (create_words tools) cluster).1 ≡ some (cert, key))
    -- `kubectl get secret -o json` shows the certificate that the secret holds
    (get_shows : (disk : Disk) (cluster : Cluster) (answer : Answer) (cert : String)
      → (tools.kubectl disk get_secret_json cluster).0 ≡ some answer
      → is_ok answer ≡ true
      → cluster_cert tools answer.stdout ≡ some (some cert)
      → (key : String) × (secret cluster ≡ some (cert, key))) where
  module _ (disk : Disk) (cert key : String) (has_cert : disk.cert ≡ some cert)
      (has_key : disk.key ≡ some key) where
    -- After status 0 the secret has the certificate on disk, and the key on disk unless openssl
    -- answered with one modulus for the two files.
    abbrev Applied : ℕ → Cluster → Type 0
    Applied rc cluster =
        rc ≡ 0
        → (k : String) × (secret cluster ≡ some (cert, k))
          × ((k ≡ key) ⊎ (moduli tools disk ≡ some true))

    create_secret-Applied : (cluster : Cluster) → Gives Applied (create_secret tools disk cluster)
    unfolding create_secret
    create_secret-Applied cluster =
        bind-Gives Applied _ (tools.kubectl disk (create_words tools) cluster) λ answer said.
          elim (Bool-cases (is_ok answer)) [
            | inl ok ↦ rw ok (λ z. (
              key,
              create_writes disk cluster answer cert key said ok has_cert has_key,
              inl refl,
            ))
            | inr bad ↦ rw bad (λ z. absurd (ground (arith, z)))
          ]

    recreate_secret-Applied :
        (cluster : Cluster) → Gives Applied (recreate_secret tools disk cluster)
    unfolding recreate_secret
    recreate_secret-Applied cluster =
        bind-Gives Applied (λ (_ : Answer). create_secret tools disk)
          (tools.kubectl disk delete_words cluster) (λ answer said. create_secret-Applied _)

    -- A secret that is taken to match has the certificate on disk.
    matches_disk_lem :
        (answer : Answer)
        → matches_disk tools disk answer ≡ some true
        → (is_ok answer ≡ true)
          × (cluster_cert tools answer.stdout ≡ some (some cert))
          × (moduli tools disk ≡ some true)
    unfolding matches_disk
    matches_disk_lem answer h = elim (Bool-cases (is_ok answer)) [
      | inr e ↦ absurd (ground (arith, h, e))
      | inl e ↦ elim (Option-cases (cluster_cert tools answer.stdout)) [
        | inl c ↦ absurd (ground (arith, h, e, c))
        | inr (none, c) ↦ absurd (ground (arith, h, e, c))
        | inr (some held, c) ↦
            let same : (held == cert) ≡ true = ground (arith, h, e, c, has_cert) in
            let held_lem : held ≡ cert = ground (arith, same, eq_iff held cert) in
            let m : moduli tools disk ≡ some true = ground (arith, h, e, c, has_cert, same) in
            (e, rw (c, held_lem) refl, m)
      ]
    ]

    matched :
        (cluster : Cluster) (p : Option Answer × Cluster)
        → p.1 ≡ cluster
        → ((answer : Answer)
            → p.0 ≡ some answer
            → is_ok answer ≡ true
            → cluster_cert tools answer.stdout ≡ some (some cert)
            → (k : String) × (secret cluster ≡ some (cert, k)))
        → (continue (judged_match tools disk) p).0 ≡ some true
        → (k : String) × (secret (continue (judged_match tools disk) p).1 ≡ some (cert, k))
          × (moduli tools disk ≡ some true)
    matched cluster (none, left) same shows h = cc
    matched cluster (some answer, left) same shows h =
        let (ok, held, m) = matches_disk_lem answer h in
        let (k, shown) = shows answer refl ok held in (k, rw same shown, m)

    either-Gives :
        (b : Bool) (f g : Cmd Cluster ℕ) (cluster : Cluster)
        → (b ≡ true → Gives Applied (f cluster))
        → Gives Applied (g cluster)
        → Gives Applied ((if b then f else g) cluster)
    either-Gives true f g cluster p q = p refl
    either-Gives false f g cluster p q = q

    refresh_secret-Applied : (cluster : Cluster) → Gives Applied (refresh_secret tools disk cluster)
    unfolding refresh_secret secret_matches_disk
    refresh_secret-Applied cluster =
        bind-Gives Applied (λ (same : Bool). if same then pure 0 else recreate_secret tools disk)
          (secret_matches_disk tools disk cluster)
          (λ same said.
            either-Gives same (pure 0) (recreate_secret tools disk) _
              (λ e z.
                let (k, shown, m) =
                  matched cluster (tools.kubectl disk get_secret_json cluster)
                    (get_keeps disk _ cluster) (λ answer. get_shows disk cluster answer cert)
                    (said ∙ ap some e) in
                (k, shown, inr m))
              (recreate_secret-Applied _))

    ensure_secret-Applied : (cluster : Cluster) → Gives Applied (ensure_secret tools disk cluster)
    unfolding ensure_secret
    ensure_secret-Applied cluster =
        bind-Gives Applied
          (λ (exists : Bool).
            if exists then refresh_secret tools disk else create_secret tools disk)
          (secret_exists tools disk cluster)
          (λ exists said.
            either-Gives exists (refresh_secret tools disk) (create_secret tools disk) _
              (λ e. refresh_secret-Applied _) (create_secret-Applied _))

    refused-Applied : (cluster : Cluster) → Gives Applied (pure 1 cluster)
    refused-Applied cluster = λ z. absurd (ground (arith, z))

    ensure_all-Applied : (cluster : Cluster) → Gives Applied (ensure_all tools disk cluster)
    unfolding ensure_all
    ensure_all-Applied cluster =
        bind-Gives Applied (λ (rc : ℕ). if eqb rc 0 then ensure_secret tools disk else pure 1)
          (ensure_namespace tools disk cluster)
          (λ rc said.
            either-Gives (eqb rc 0) (ensure_secret tools disk) (pure 1) _
              (λ e. ensure_secret-Applied _) (refused-Applied _))

    deploy-Applied : (cluster : Cluster) → Gives Applied (deploy tools disk cluster)
    unfolding deploy
    deploy-Applied cluster =
        bind-Gives Applied (λ (reached : Bool). if reached then ensure_all tools disk else pure 1)
          (has_kubectl_cluster tools disk cluster)
          (λ reached said.
            either-Gives reached (ensure_all tools disk) (pure 1) _ (λ e. ensure_all-Applied _)
              (refused-Applied _))

  -- An apply that ends with 0 leaves a pair on disk, and in the cluster a secret with its certificate and,
  -- unless openssl answered with one modulus for the two files, with its key.
  pub applied_secret :
      (force : Bool) (disk : Disk) (cluster : Cluster)
      → (main tools (apply_mode force) disk cluster).0 ≡ 0
      → let r = main tools (apply_mode force) disk cluster in
        HasValid tools r.1
        × ((cert : String) × (key : String) × (k : String) × (r.1.cert ≡ some cert)
            × (r.1.key ≡ some key)
            × (secret r.2 ≡ some (cert, k))
            × ((k ≡ key) ⊎ (moduli tools r.1 ≡ some true)))
  unfolding main Deployed
  applied_secret force disk cluster h =
      let (p, ok) = (main-IsSafe tools (apply_mode force) disk cluster).applied force refl h in
      let left = (apply tools force disk cluster).1 in
      let (cert, key, c, k) = valid_there tools left ok in
      let (ended, came) = apply-Deployed tools cluster force disk (status_zero _ h) in
      let (kept, shown, same) =
        Gives-at (Applied left cert key c k) _ 0 (deploy-Applied left cert key c k cluster) ended
          refl in
      (ok, (cert, key, kept, c, k, rw came shown, same))

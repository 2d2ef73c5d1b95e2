-- ===== src/EdgeCert/Outcome.antt =====
-- What a run may change, and what its exit status says of the certificate.
use hpa_with_bmad.Base.{
  ℕ, zero, suc, String, Bool, true, false, Option, none, some, List, [], ◌∷◌, ◌≡◌, ◌⊎◌, inl, inr,
  ◌≢◌, refl, arith, Option-cases,
}
use hpa_with_bmad.EdgeCert.{
  Answer, Disk, Tools, CertState, valid, missing, invalid, cert_state, validate_cert_pair,
  judge_generated, generate_in, generate_cert,
}
use hpa_with_bmad.EdgeCert.Modes.{
  Mode, check_mode, dry_run_mode, apply_mode, prep, check, deploy_from, after_generation, apply_for,
  apply, status, main,
}

-- A mode that may replace a pair in this state.
abbrev pub Replaces : Mode → CertState → Type 0
Replaces mode missing = (force : Bool) × (mode ≡ apply_mode force)
Replaces mode invalid = mode ≡ apply_mode true
Replaces mode valid = ⊥

pub List-cases : (l : List String) → (l ≡ []) ⊎ ((f : String) × (fs : List String) × (l ≡ f ∷ fs))
List-cases [] = inl refl
List-cases (f ∷ fs) = inr (f, fs, refl)

pub status_zero : (rc : Option ℕ) → status rc ≡ 0 → rc ≡ some 0
status_zero none h = absurd (ground (arith, h))
status_zero (some rc) h = rw h refl

module _ {Cluster : Type 0} (tools : Tools Cluster) where
  -- What `_cert_state` makes of the disk.
  abbrev pub HasState : CertState → Disk → Type 0
  HasState state disk = (reason : String) × (cert_state tools disk ≡ some (state, reason))

  -- The pair on disk passes every test.
  abbrev pub HasValid : Disk → Type 0
  HasValid disk = HasState valid disk

  judge_generated_lem :
      (answer : Option Answer) (disk : Disk)
      → judge_generated tools answer disk ≡ some 0
      → HasValid disk
  unfolding judge_generated cert_state
  judge_generated_lem none disk h = cc
  judge_generated_lem (some answer) disk h = elim (Option-cases (validate_cert_pair tools disk)) [
    | inl e ↦ ("", ground (arith, h, e))
    | inr ((true, reason), e) ↦ ("cert already present", ground (arith, h, e))
    | inr ((false, reason), e) ↦ ("", ground (arith, h, e))
  ]

  generate_in_lem :
      (made : Option Bool) (disk : Disk)
      → (generate_in tools made disk).0 ≡ some 0
      → HasValid (generate_in tools made disk).1
  unfolding generate_in
  generate_in_lem none disk h = cc
  generate_in_lem (some false) disk h = absurd (ground (arith, h))
  generate_in_lem (some true) disk h = judge_generated_lem _ _ h

  -- What the part from the generation on leaves: the cluster as it was unless the pair is valid, and
  -- status 0 only with a valid pair.
  abbrev Guarded : Cluster → Option ℕ × Disk × Cluster → Type 0
  Guarded cluster r = ((r.2 ≡ cluster) ⊎ HasValid r.1) × (r.0 ≡ some 0 → HasValid r.1)

  after_generation-Guarded :
      (cluster : Cluster) (generated : Option ℕ × Disk)
      → (generated.0 ≡ some 0 → HasValid generated.1)
      → Guarded cluster (after_generation tools cluster generated)
  unfolding after_generation deploy_from
  after_generation-Guarded cluster (none, disk) h = (inl refl, (λ e. absurd (cc)))
  after_generation-Guarded cluster (some zero, disk) h = (inr (h refl), (λ e. h refl))
  after_generation-Guarded cluster (some (suc n), disk) h =
      (inl refl, (λ e. absurd (ground (arith, e))))

  -- What a run leaves.
  pub record IsSafe (mode : Mode) (disk : Disk) (cluster : Cluster) (r : ℕ × Disk × Cluster)
      : Type 0 where
    pub disk_kept :
        (r.1 ≡ disk)
        ⊎ ((state : CertState) × HasState state disk × (prep tools ≡ []) × Replaces mode state)
    pub cluster_kept :
        (r.2 ≡ cluster) ⊎ (HasValid r.1 × ((force : Bool) × (mode ≡ apply_mode force)))
    pub applied :
        (force : Bool) → mode ≡ apply_mode force → r.0 ≡ 0 → (prep tools ≡ []) × HasValid r.1
    pub reported :
        (mode ≡ check_mode) ⊎ (mode ≡ dry_run_mode)
        → r.0 ≡ 0
        → (prep tools ≡ []) × (HasValid r.1 ⊎ HasState missing r.1)

  -- A run that stopped changed nothing.
  stopped-IsSafe :
      (mode : Mode) (disk : Disk) (cluster : Cluster) → IsSafe mode disk cluster (1, disk, cluster)
  stopped-IsSafe mode disk cluster = record {
    disk_kept = inl refl;
    cluster_kept = inl refl;
    applied = λ force m e. absurd (ground (arith, e));
    reported = λ m e. absurd (ground (arith, e));
  }

  check_lem :
      (disk : Disk)
      → status (check tools disk) ≡ 0
      → (prep tools ≡ []) × (HasValid disk ⊎ HasState missing disk)
  unfolding check
  check_lem disk h = elim (List-cases (prep tools)) [
    | inr (f, fs, p) ↦ absurd (let k = rw (p, check) at h in ground (arith, k))
    | inl p ↦
        let k = rw (p, check) at h in
        (
          p,
          elim (Option-cases (cert_state tools disk)) [
            | inl e ↦ absurd (let l = rw e at k in ground (arith, l))
            | inr ((valid, reason), e) ↦ inl (reason, e)
            | inr ((missing, reason), e) ↦ inr (reason, e)
            | inr ((invalid, reason), e) ↦ absurd (let l = rw e at k in ground (arith, l))
          ],
        )
  ]

  checked-IsSafe :
      (mode : Mode) (disk : Disk) (cluster : Cluster)
      → ((force : Bool) → mode ≢ apply_mode force)
      → IsSafe mode disk cluster (status (check tools disk), disk, cluster)
  checked-IsSafe mode disk cluster other = record {
    disk_kept = inl refl;
    cluster_kept = inl refl;
    applied = λ force m e. absurd (other force m);
    reported = λ m e. check_lem disk e;
  }

  -- The same of a run that replaces the pair.
  replaced-IsSafe :
      (force : Bool) (disk : Disk) (cluster : Cluster) (state : CertState)
      (r : Option ℕ × Disk × Cluster)
      → prep tools ≡ []
      → HasState state disk
      → Replaces (apply_mode force) state
      → Guarded cluster r
      → IsSafe (apply_mode force) disk cluster (status r.0, r.1, r.2)
  replaced-IsSafe force disk cluster state r p has may (kept, done) = record {
    disk_kept = inr (state, has, p, may);
    cluster_kept = elim kept [ inl same ↦ inl same | inr ok ↦ inr (ok, (force, refl)) ];
    applied = λ f m e. (p, done (status_zero r.0 e));
    reported = λ m e. elim m [ inl c ↦ absurd (cc) | inr c ↦ absurd (cc) ];
  }

  apply_for-IsSafe :
      (force : Bool) (disk : Disk) (cluster : Cluster) (state : Option (CertState × String))
      → prep tools ≡ []
      → cert_state tools disk ≡ state
      → IsSafe
          (apply_mode force)
          disk
          cluster
          (let r = apply_for tools force disk cluster state in (status r.0, r.1, r.2))
  unfolding apply_for deploy_from generate_cert
  apply_for-IsSafe force disk cluster none p e = stopped-IsSafe _ disk cluster
  apply_for-IsSafe force disk cluster (some (valid, reason)) p e = record {
    disk_kept = inl refl;
    cluster_kept = inr ((reason, e), (force, refl));
    applied = λ f m z. (p, (reason, e));
    reported = λ m z. elim m [ inl c ↦ absurd (cc) | inr c ↦ absurd (cc) ];
  }
  apply_for-IsSafe force disk cluster (some (missing, reason)) p e =
      replaced-IsSafe force disk cluster missing _ p (reason, e) (force, refl)
        (after_generation-Guarded cluster _ (generate_in_lem tools.mkdir disk))
  apply_for-IsSafe false disk cluster (some (invalid, reason)) p e = stopped-IsSafe _ disk cluster
  apply_for-IsSafe true disk cluster (some (invalid, reason)) p e =
      replaced-IsSafe true disk cluster invalid _ p (reason, e) refl
        (after_generation-Guarded cluster _ (generate_in_lem tools.mkdir disk))

  -- A run changes the pair on disk only with `--apply`, with everything it requires in place, where no
  -- pair is there or, with `--force`, where the pair is invalid. It changes the cluster only with
  -- `--apply` and with a valid pair on disk. An apply that ends with 0 leaves a valid pair; a check or a
  -- dry run that ends with 0 found a valid pair or none.
  pub main-IsSafe :
      (mode : Mode) (disk : Disk) (cluster : Cluster)
      → IsSafe mode disk cluster (main tools mode disk cluster)
  unfolding main apply
  main-IsSafe check_mode disk cluster = checked-IsSafe _ disk cluster (λ f e. cc)
  main-IsSafe dry_run_mode disk cluster = checked-IsSafe _ disk cluster (λ f e. cc)
  main-IsSafe (apply_mode force) disk cluster = elim (List-cases (prep tools)) [
    | inr (f, fs, p) ↦ rw (p, main, apply) (stopped-IsSafe _ disk cluster)
    | inl p ↦ rw (p, main, apply) (apply_for-IsSafe force disk cluster _ p refl)
  ]

-- ===== src/Preflight/Gate.antt =====
-- What the exit status means.
use hpa_with_bmad.Base.{
  ℕ, zero, suc, Bool, true, false, not, ◌&&◌, Option, none, some, List, [], ◌∷◌, string_eq, any,
  All, if◌then◌else◌, ◌≡◌, ◌≢◌, ◌↔◌, ◌⊎◌, inl, inr, refl, arith, Bool-cases, Option-cases,
}
use hpa_with_bmad.Preflight.{
  World, ImageStatus, Options, is_true, is_custom, pull_one, pull_missing, Action,
  load_images_to_cluster, is_blocked, check_images, after_load, checks, load_stage, after_pulls,
  pull_stage, main,
}
use hpa_with_bmad.Preflight.Loading.{count-zero, All-iff, AllLoaded, load_lem}
use hpa_with_bmad.Preflight.Actions.{Allowed, pull_stage-Allowed}

any-false :
    (test : ImageStatus → Bool) (statuses : List ImageStatus)
    → (any test statuses ≡ false) ↔ All (λ s. test s ≡ false) statuses
any-false test [] = ((λ h. tt), (λ h. refl))
any-false test (s ∷ rest) =
    let (to, from) = any-false test rest in
    elim (Bool-cases (test s)) [
      | inl f ↦ rw f ((λ h. absurd (ground (arith, h))), (λ h. absurd (ground (arith, h.0))))
      | inr f ↦ rw f ((λ h. (refl, to h)), (λ h. from h.1))
    ]

-- What passes the gate: an image that the mirror has, that is custom, or of which the mirror gave no
-- answer.
abbrev pub Passes : World → ImageStatus → Type 0
Passes world s = (s.mirrored ≢ some false) ⊎ (is_custom world s ≡ true)

blocked_lem : (world : World) (s : ImageStatus) → (is_blocked world s ≡ false) ↔ Passes world s
unfolding is_blocked
blocked_lem world s = elim (Option-cases s.mirrored) [
  | inl e ↦ ((λ h. inl (λ k. absurd (ground (arith, e, k)))), (λ h. ground (arith, e)))
  | inr (true, e) ↦ ((λ h. inl (λ k. absurd (ground (arith, e, k)))), (λ h. ground (arith, e)))
  | inr (false, e) ↦ (
    (λ h. inr (ground (arith, h, e))),
    (λ h. elim h [ inl k ↦ absurd (k e) | inr k ↦ ground (arith, k, e) ]),
  )
]

clash : {b : Bool} → b ≡ true → b ≡ false → ⊥
clash p q = cc

gate_code :
    (world : World) (asked : Bool) (statuses : List ImageStatus)
    → (◌≡◌ {A = ℕ} (if asked && any (is_blocked world) statuses then 1 else 0) 0)
      ↔ (asked ≡ true → All (Passes world) statuses)
gate_code world false statuses = ((λ h e. absurd (cc)), (λ h. refl))
gate_code world true statuses =
    let (free, unblocked) = any-false (is_blocked world) statuses in
    let (passed, held) = All-iff _ _ statuses (blocked_lem world) in
    elim (Bool-cases (any (is_blocked world) statuses)) [
      | inl b ↦
          rw b
            ((λ h. absurd (ground (arith, h))), (λ h. absurd (clash b (unblocked (held (h refl))))))
      | inr b ↦ rw b ((λ h e. passed (free b)), (λ h. refl))
    ]

-- What needs no pull or is pulled.
abbrev pub Obtained : World → Options → ImageStatus → Type 0
Obtained world args s =
    (is_custom world s ≡ true)
    ⊎ ((s.mirrored ≡ some true) × (s.local_available ≡ false))
    ⊎ ((s.local_available ≡ true) × (args.force ≡ false))
    ⊎ (world.docker_pull s.image ≡ true)

obtained_cases :
    (c l f d : Bool) (m : Option Bool)
    → ((not c && not (is_true m && not l) && not (l && not f) && not d) ≡ false)
      ↔ ((c ≡ true) ⊎ ((m ≡ some true) × (l ≡ false)) ⊎ ((l ≡ true) × (f ≡ false)) ⊎ (d ≡ true))
obtained_cases true l f d m = ((λ h. inl refl), (λ h. refl))
obtained_cases false l f true m = ((λ h. inr (inr (inr refl))), (λ h. ground arith))
obtained_cases false true false false m = ((λ h. inr (inr (inl (refl, refl)))), (λ h. ground arith))
obtained_cases false true true false m =
    ((λ h. absurd (ground (arith, h))), (λ h. ground (arith, h)))
obtained_cases false false f false (some true) = ((λ h. inr (inl (refl, refl))), (λ h. refl))
obtained_cases false false f false (some false) =
    ((λ h. absurd (ground (arith, h))), (λ h. ground (arith, h)))
obtained_cases false false f false none =
    ((λ h. absurd (ground (arith, h))), (λ h. ground (arith, h)))

pull_one_fails :
    (world : World) (force : Bool) (s : ImageStatus)
    → (pull_one world force s).0 ≡ (
        not (is_custom world s)
        && not (is_true s.mirrored && not s.local_available)
        && not (s.local_available && not force)
        && not (world.docker_pull s.image))
unfolding pull_one
pull_one_fails world force s = ground arith

obtained_lem :
    (world : World) (args : Options) (s : ImageStatus)
    → ((pull_one world args.force s).0 ≡ false) ↔ Obtained world args s
obtained_lem world args s = rw (pull_one_fails world args.force s) (
    obtained_cases (is_custom world s) s.local_available args.force (world.docker_pull s.image)
      s.mirrored)

after_load-code :
    (exit_code : ℕ) (done : List Action) (o : Option (ℕ × List Action))
    → ((after_load exit_code done o).0 ≡ 0)
      ↔ ((exit_code ≡ 0) × ((actions : List Action) × (o ≡ some (0, actions))))
unfolding after_load
after_load-code exit_code done none =
    ((λ h. absurd (ground (arith, h))), (λ h. absurd (let e = h.1.1 in cc)))
after_load-code exit_code done (some (zero, actions)) = ((λ h. (h, (actions, refl))), (λ h. h.0))
after_load-code exit_code done (some (suc n, actions)) =
    ((λ h. absurd (ground (arith, h))), (λ h. absurd (let e = h.1.1 in ground (arith, e))))

module _ (world : World) (args : Options) (statuses : List ImageStatus) where
  load_stage-code :
      (asked : Bool) (exit_code : ℕ) (done : List Action)
      → ((load_stage world asked statuses exit_code done).0 ≡ 0)
        ↔ ((exit_code ≡ 0) × (asked ≡ true → AllLoaded world statuses))
  unfolding load_stage
  load_stage-code false exit_code done = ((λ h. (h, (λ e. absurd (cc)))), (λ h. h.0))
  load_stage-code true exit_code done =
      let (to, from) = after_load-code exit_code done (load_images_to_cluster world statuses) in
      let (loaded, clean) = load_lem world statuses in
      ((λ h. ((to h).0, (λ e. loaded (to h).1))), (λ h. from (h.0, clean (h.1 refl))))

  after_pulls-code :
      (exit_code : ℕ) (pulled : ℕ × List Action)
      → ((after_pulls world args.load_asked statuses exit_code pulled).0 ≡ 0)
        ↔ ((exit_code ≡ 0) × (pulled.0 ≡ 0) × (args.load_asked ≡ true → AllLoaded world statuses))
  unfolding after_pulls
  after_pulls-code exit_code (zero, actions) =
      let (to, from) = load_stage-code args.load_asked exit_code actions in
      ((λ h. let (e, l) = to h in (e, refl, l)), (λ h. from (h.0, h.2)))
  after_pulls-code exit_code (suc n, actions) =
      ((λ h. absurd (ground (arith, h))), (λ h. absurd (let e = h.1 in ground (arith, e))))

  pull_stage-code :
      (asked : Bool) (exit_code : ℕ)
      → ((pull_stage world asked args statuses exit_code).0 ≡ 0) ↔ (
          (exit_code ≡ 0)
          × (asked ≡ true → All (Obtained world args) statuses)
          × (args.load_asked ≡ true → AllLoaded world statuses))
  unfolding pull_stage
  pull_stage-code false exit_code =
      let (to, from) = load_stage-code args.load_asked exit_code [] in
      ((λ h. let (e, l) = to h in (e, (λ k. absurd (cc)), l)), (λ h. from (h.0, h.2)))
  pull_stage-code true exit_code =
      let (to, from) = after_pulls-code exit_code (pull_missing world args.force statuses) in
      let (none_fails, all_fine) = count-zero world (pull_one world args.force) statuses in
      let (fine, passed) = All-iff _ _ statuses (obtained_lem world args) in
      (
        (λ h. let (e, p, l) = to h in (e, (λ k. fine (none_fails p)), l)),
        (λ h. from (h.0, all_fine (passed (h.1 refl)), h.2)),
      )

-- An exit status 0 says that, in a check, no image is known to be absent from the mirror but custom
-- ones; that each image was pulled that had to be, where pulls are asked for; and, where loading is
-- asked for, that each image that was local was loaded through the endpoint that docker names, or that
-- docker names none and there was no image. Any other outcome ends with another status. No run pulls a
-- custom image, one that only the mirror serves or, unless forced, one that is local; it loads only
-- images that were local when it began; and it does either only when asked.
pub gate_outcome :
    (world : World) (args : Options)
    → let statuses = check_images world args.components world.images in
      (((main world args).0 ≡ 0) ↔ (
        (checks args ≡ true → All (Passes world) statuses)
        × (args.pull_asked ≡ true → All (Obtained world args) statuses)
        × (args.load_asked ≡ true → AllLoaded world statuses)))
      × All (Allowed world args statuses) (main world args).1
unfolding main
gate_outcome world args =
    let statuses = check_images world args.components world.images in
    let (to, from) = gate_code world (checks args) statuses in
    let (ended, ends) = pull_stage-code world args statuses args.pull_asked _ in
    (
      ((λ h. let (gate, p, l) = ended h in (to gate, p, l)), (λ h. ends (from h.0, h.1, h.2))),
      pull_stage-Allowed world args statuses args.pull_asked _ refl,
    )

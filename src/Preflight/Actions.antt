-- ===== src/Preflight/Actions.antt =====
-- Which images a run pulls and loads.
use hpa_with_bmad.Base.{
  ℕ, zero, suc, String, Bool, true, false, not, ◌&&◌, Option, none, some, List, [], ◌∷◌, ◌++◌,
  string_eq, ◌==◌, All, ◌≡◌, ◌≢◌, ◌⊎◌, inl, inr, refl, arith, Bool-cases,
}
use hpa_with_bmad.Preflight.{
  World, ImageStatus, Action, pull, load, mark, Options, is_true, is_custom, pull_one, load_one,
  count, load_at, load_from, load_images_to_cluster, endpoint_in, after_load, load_stage,
  after_pulls, pull_stage,
}

absent : (there force : Bool) → (there && not force) ≡ false → (there ≡ false) ⊎ (force ≡ true)
absent false force h = inl refl
absent true true h = inr refl
absent true false h = cc

unserved :
    (mirrored : Option Bool) (there : Bool)
    → (is_true mirrored && not there) ≡ false
    → (there ≡ true) ⊎ (mirrored ≢ some true)
unserved mirrored true h = inl refl
unserved none false h = inr (λ e. cc)
unserved (some false) false h = inr (λ e. ground (arith, e))
unserved (some true) false h = absurd (cc)

abbrev pub Among : (ImageStatus → Type 0) → List ImageStatus → Type 0
Among P [] = ⊥
Among P (s ∷ rest) = P s ⊎ Among P rest

-- The actions that the statuses allow: an image is pulled that is not custom, is not local unless the
-- pull is forced, and is not served by the mirror alone; an image is loaded that was local.
module _ (world : World) (args : Options) where
  abbrev pub MayPull : ImageStatus → Type 0
  MayPull s =
      (is_custom world s ≡ false)
      × ((s.local_available ≡ false) ⊎ (args.force ≡ true))
      × ((s.local_available ≡ true) ⊎ (s.mirrored ≢ some true))

  abbrev pub Allowed : List ImageStatus → Action → Type 0
  Allowed statuses (pull image) =
      (args.pull_asked ≡ true) × Among (λ s. (s.image ≡ image) × MayPull s) statuses
  Allowed statuses (load image) =
      (args.load_asked ≡ true)
      × Among (λ s. (s.image ≡ image) × (s.local_available ≡ true)) statuses
  Allowed statuses (mark path image) =
      Among (λ s. (s.image ≡ image) × (s.marker_path ≡ path)) statuses

  weaken :
      (s : ImageStatus) (statuses : List ImageStatus) (action : Action)
      → Allowed statuses action
      → Allowed (s ∷ statuses) action
  weaken s statuses (pull image) (h, k) = (h, inr k)
  weaken s statuses (load image) (h, k) = (h, inr k)
  weaken s statuses (mark path image) h = inr h

  All-weaken :
      (s : ImageStatus) (statuses : List ImageStatus) (actions : List Action)
      → All (Allowed statuses) actions
      → All (Allowed (s ∷ statuses)) actions
  All-weaken s statuses [] h = tt
  All-weaken s statuses (a ∷ actions) (h, hs) =
      (weaken s statuses a h, All-weaken s statuses actions hs)

  All-append :
      (statuses : List ImageStatus) (xs ys : List Action)
      → All (Allowed statuses) xs
      → All (Allowed statuses) ys
      → All (Allowed statuses) (xs ++ ys)
  All-append statuses [] ys h k = k
  All-append statuses (x ∷ xs) ys (h, hs) k = (h, All-append statuses xs ys hs k)

  -- A loop whose rounds are allowed is allowed, and fails nowhere exactly if no round fails.
  count-Allowed :
      (one : ImageStatus → Bool × List Action) (statuses : List ImageStatus)
      → ((s : ImageStatus) (rest : List ImageStatus) → All (Allowed (s ∷ rest)) (one s).1)
      → All (Allowed statuses) (count world one statuses).1
  unfolding count
  count-Allowed one [] h = tt
  count-Allowed one (s ∷ rest) h =
      All-append (s ∷ rest) (one s).1 _ (h s rest) (All-weaken s rest _ (count-Allowed one rest h))

  pull_one-Allowed :
      args.pull_asked ≡ true
      → (s : ImageStatus) (rest : List ImageStatus)
      → All (Allowed (s ∷ rest)) (pull_one world args.force s).1
  unfolding pull_one
  pull_one-Allowed asked s rest = elim (Bool-cases (is_custom world s)) [
    | inl c ↦ rw (pull_one, c) tt
    | inr c ↦ elim (Bool-cases (is_true s.mirrored && not s.local_available)) [
      | inl m ↦ rw (pull_one, c, m) (inl (refl, refl), tt)
      | inr m ↦ elim (Bool-cases (s.local_available && not args.force)) [
        | inl l ↦ rw (pull_one, c, m, l) tt
        | inr l ↦
            let may : MayPull s =
              (c, absent s.local_available args.force l, unserved s.mirrored s.local_available m) in
            elim (Bool-cases (world.docker_pull s.image)) [
              | inl d ↦ rw (pull_one, c, m, l, d) ((asked, inl (refl, may)), (inl (refl, refl), tt))
              | inr d ↦ rw (pull_one, c, m, l, d) ((asked, inl (refl, may)), tt)
            ]
      ]
    ]
  ]

  load_one-Allowed :
      (endpoint : String)
      → args.load_asked ≡ true
      → (s : ImageStatus) (rest : List ImageStatus)
      → All (Allowed (s ∷ rest)) (load_one world endpoint s).1
  unfolding load_one
  load_one-Allowed endpoint asked s rest = elim (Bool-cases (not s.local_available)) [
    | inl l ↦ rw (load_one, l) tt
    | inr l ↦
        let there : s.local_available ≡ true = ground (arith, l) in
        elim (Bool-cases (world.talos_pull s.image endpoint)) [
          | inl d ↦ rw (load_one, l, d) ((asked, inl (refl, there)), (inl (refl, refl), tt))
          | inr d ↦ rw (load_one, l, d) ((asked, inl (refl, there)), tt)
        ]
  ]

module _ (world : World) (args : Options) (statuses : List ImageStatus) where
  abbrev AllowsAll : Option (ℕ × List Action) → Type 0
  AllowsAll none = Unit {0}
  AllowsAll (some (n, actions)) = All (Allowed world args statuses) actions

  load_at-AllowsAll :
      args.load_asked ≡ true
      → (endpoint : Option String) → AllowsAll (load_at world statuses endpoint)
  unfolding load_at
  load_at-AllowsAll asked none = tt
  load_at-AllowsAll asked (some endpoint) = elim (Bool-cases (endpoint == "")) [
    | inl e ↦ rw e tt
    | inr e ↦ rw e (
        count-Allowed world args (load_one world endpoint) statuses
          (λ s rest. load_one-Allowed world args endpoint asked s rest))
  ]

  load_from-AllowsAll :
      args.load_asked ≡ true → (port : Option String) → AllowsAll (load_from world statuses port)
  unfolding load_from
  load_from-AllowsAll asked none = tt
  load_from-AllowsAll asked (some stdout) = load_at-AllowsAll asked (endpoint_in world stdout)

  after_load-Allowed :
      (exit_code : ℕ) (done : List Action) (o : Option (ℕ × List Action))
      → All (Allowed world args statuses) done
      → AllowsAll o
      → All (Allowed world args statuses) (after_load exit_code done o).1
  unfolding after_load
  after_load-Allowed exit_code done none h k = h
  after_load-Allowed exit_code done (some (n, actions)) h k =
      All-append world args statuses done actions h k

  load_stage-Allowed :
      (asked : Bool) (exit_code : ℕ) (done : List Action)
      → args.load_asked ≡ asked
      → All (Allowed world args statuses) done
      → All (Allowed world args statuses) (load_stage world asked statuses exit_code done).1
  unfolding load_stage load_images_to_cluster
  load_stage-Allowed false exit_code done e h = h
  load_stage-Allowed true exit_code done e h =
      after_load-Allowed exit_code done _ h (load_from-AllowsAll e world.docker_port)

  after_pulls-Allowed :
      (exit_code : ℕ) (pulled : ℕ × List Action)
      → All (Allowed world args statuses) pulled.1
      → All
          (Allowed world args statuses)
          (after_pulls world args.load_asked statuses exit_code pulled).1
  unfolding after_pulls
  after_pulls-Allowed exit_code (zero, actions) h =
      load_stage-Allowed args.load_asked exit_code actions refl h
  after_pulls-Allowed exit_code (suc n, actions) h = h

  pub pull_stage-Allowed :
      (asked : Bool) (exit_code : ℕ)
      → args.pull_asked ≡ asked
      → All (Allowed world args statuses) (pull_stage world asked args statuses exit_code).1
  unfolding pull_stage
  pull_stage-Allowed false exit_code e = load_stage-Allowed args.load_asked exit_code [] refl tt
  pull_stage-Allowed true exit_code e = after_pulls-Allowed exit_code _ (
      count-Allowed world args (pull_one world args.force) statuses
        (λ s rest. pull_one-Allowed world args e s rest))

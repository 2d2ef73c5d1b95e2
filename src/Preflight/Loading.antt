-- ===== src/Preflight/Loading.antt =====
-- When the loading has no failure.
use hpa_with_bmad.Base.{
  ℕ, zero, suc, String, ◌==◌, eq_iff, Bool, true, false, Option, none, some, List, [], ◌∷◌,
  string_eq, All, ◌≡◌, ◌≢◌, ◌↔◌, ◌⊎◌, inl, inr, refl, arith, Bool-cases,
}
use hpa_with_bmad.Preflight.{
  World, ImageStatus, count, Action, endpoint_in, load_images_to_cluster, length, load_at,
  load_from, load_one,
}

pub count-zero :
    (world : World) (one : ImageStatus → Bool × List Action) (statuses : List ImageStatus)
    → ((count world one statuses).0 ≡ 0) ↔ All (λ s. (one s).0 ≡ false) statuses
unfolding count
count-zero world one [] = ((λ h. tt), (λ h. refl))
count-zero world one (s ∷ rest) =
    let (to, from) = count-zero world one rest in
    elim (Bool-cases (one s).0) [
      | inl f ↦
          rw (f, count) ((λ h. absurd (ground (arith, h))), (λ h. absurd (ground (arith, h.0))))
      | inr f ↦ rw (f, count) ((λ h. (refl, to h)), (λ h. from h.1))
    ]

pub All-iff :
    (P Q : ImageStatus → Type 0) (statuses : List ImageStatus)
    → ((s : ImageStatus) → P s ↔ Q s)
    → All P statuses ↔ All Q statuses
All-iff P Q [] h = ((λ e. tt), (λ e. tt))
All-iff P Q (s ∷ rest) h =
    let (to, from) = All-iff P Q rest h in
    ((λ e. ((h s).0 e.0, to e.1)), (λ e. ((h s).1 e.0, from e.1)))

-- What needs no loading or is loaded.
abbrev pub Loaded : World → String → ImageStatus → Type 0
Loaded world endpoint s = (s.local_available ≡ false) ⊎ (world.talos_pull s.image endpoint ≡ true)

-- The loading through an endpoint had no failure; without one only an empty list has none.
abbrev pub AllLoadedAt : World → List ImageStatus → String → Type 0
AllLoadedAt world statuses endpoint =
    ((endpoint ≡ "") × (statuses ≡ [])) ⊎ ((endpoint ≢ "") × All (Loaded world endpoint) statuses)

-- The same for what `docker port` answers.
abbrev pub AllLoadedFrom : World → List ImageStatus → Option String → Type 0
AllLoadedFrom world statuses none = statuses ≡ []
AllLoadedFrom world statuses (some stdout) =
    (endpoint : String) × (endpoint_in world stdout ≡ some endpoint)
    × AllLoadedAt world statuses endpoint

abbrev pub AllLoaded : World → List ImageStatus → Type 0
AllLoaded world statuses = AllLoadedFrom world statuses world.docker_port

-- An outcome of the loading without a failure.
abbrev pub IsClean : Option (ℕ × List Action) → Type 0
IsClean o = (actions : List Action) × (o ≡ some (0, actions))

zero_left : (n : ℕ) (actions : List Action) → IsClean (some (n, actions)) ↔ (n ≡ 0)
zero_left zero actions = ((λ h. refl), (λ h. (actions, refl)))
zero_left (suc n) actions =
    ((λ h. absurd (let e = h.1 in ground (arith, e))), (λ h. absurd (ground (arith, h))))

load_one_lem :
    (world : World) (endpoint : String) (s : ImageStatus)
    → ((load_one world endpoint s).0 ≡ false) ↔ Loaded world endpoint s
unfolding load_one
load_one_lem world endpoint s = (
  (λ h. ground (arith, h)),
  (λ h. elim h [ inl e ↦ ground (arith, e) | inr e ↦ ground (arith, e) ]),
)

module _ (world : World) where
  nothing_left :
      (statuses : List ImageStatus) → IsClean (some (length world statuses, [])) ↔ (statuses ≡ [])
  nothing_left [] = ((λ h. refl), (λ h. ([], refl)))
  nothing_left (s ∷ rest) = ((λ h. absurd (let e = h.1 in ground (arith, e))), (λ h. absurd (cc)))

  load_at_lem :
      (statuses : List ImageStatus) (endpoint : String)
      → IsClean (load_at world statuses (some endpoint)) ↔ AllLoadedAt world statuses endpoint
  unfolding load_at
  load_at_lem statuses endpoint = elim (Bool-cases (endpoint == "")) [
    | inl e ↦
        let same : endpoint ≡ "" = ground (arith, e, eq_iff endpoint "") in
        let (to, from) = nothing_left statuses in
        rw (load_at, e)
          ((λ h. inl (same, to h)), (λ h. elim h [ inl k ↦ from k.1 | inr k ↦ absurd (k.0 same) ]))
    | inr e ↦
        let other : endpoint ≢ "" = λ h. ground (arith, e, h, eq_iff endpoint "") in
        let (none_fails, all_fine) = count-zero world (load_one world endpoint) statuses in
        let (fine, passed) = All-iff _ _ statuses (load_one_lem world endpoint) in
        let (to, from) = zero_left _ (count world (load_one world endpoint) statuses).1 in
        rw (load_at, e)
          (
            (λ h. inr (other, fine (none_fails (to h)))),
            (λ h. elim h [ inl k ↦ absurd (other k.0) | inr k ↦ from (all_fine (passed k.1)) ]),
          )
  ]

  load_end_lem :
      (statuses : List ImageStatus) (o : Option String)
      → IsClean (load_at world statuses o)
        ↔ ((endpoint : String) × (o ≡ some endpoint) × AllLoadedAt world statuses endpoint)
  unfolding load_at
  load_end_lem statuses none =
      ((λ h. absurd (let e = h.1 in cc)), (λ h. absurd (let e = h.1 in cc)))
  load_end_lem statuses (some endpoint) =
      let (to, from) = load_at_lem statuses endpoint in
      (
        (λ h. (endpoint, refl, to h)),
        (λ (e, same, k). let named : e ≡ endpoint = cc in from (rw named at k)),
      )

  load_from_lem :
      (statuses : List ImageStatus) (port : Option String)
      → IsClean (load_from world statuses port) ↔ AllLoadedFrom world statuses port
  unfolding load_from
  load_from_lem statuses none = nothing_left statuses
  load_from_lem statuses (some stdout) = load_end_lem statuses (endpoint_in world stdout)

  pub load_lem :
      (statuses : List ImageStatus)
      → IsClean (load_images_to_cluster world statuses) ↔ AllLoaded world statuses
  unfolding load_images_to_cluster
  load_lem statuses = load_from_lem statuses world.docker_port

-- ===== src/Startup/Order.antt =====
-- What a run does, in which order, and what its exit status says.
use hpa_with_bmad.Base.{
  ℤ, pos, eqb_ℤ, eqb_ℤ_iff, String, Bool, true, false, none, some, List, [], ◌∷◌, ◌++◌, string_eq,
  if◌then◌else◌, map, All, ◌≡◌, ◌≢◌, ◌↔◌, refl, arith, Bool-cases, Option-cases, inl, inr,
}
use hpa_with_bmad.Versions.{Environ}
use hpa_with_bmad.Startup.{Step}
use hpa_with_bmad.Startup.Toggles.{is_step_enabled, step_toggle_reason}
use hpa_with_bmad.Startup.Modes.{step_mode_args}
use hpa_with_bmad.Startup.Run.{
  Action, run, render_apps, ensure_registry, check_cluster, stop_cluster, World, step_code, round,
  run_all,
}

abbrev pub is_run : Action → Bool
is_run (run _ _) = true
is_run render_apps = false
is_run ensure_registry = false
is_run check_cluster = false
is_run stop_cluster = false

-- The enabled ones of the steps, in their order.
pub enabled_of : Environ → List Step → List Step
enabled_of env [] = []
enabled_of env (step ∷ steps) =
    let rest = enabled_of env steps in if is_step_enabled env step then step ∷ rest else rest

abbrev pub Prepares : List Action → Type 0
Prepares actions = All (λ a. is_run a ≡ false) actions

pub Prepares-append : (xs ys : List Action) → Prepares xs → Prepares ys → Prepares (xs ++ ys)
Prepares-append [] ys h k = k
Prepares-append (x ∷ xs) ys (h, hs) k = (h, Prepares-append xs ys hs k)

reason_on :
    (env : Environ) (step : Step)
    → is_step_enabled env step ≡ true
    → step_toggle_reason env step ≡ none
unfolding step_toggle_reason
reason_on env step on = rw (on, step_toggle_reason) refl

reason_off :
    (env : Environ) (step : Step)
    → is_step_enabled env step ≡ false
    → (reason : String) × (step_toggle_reason env step ≡ some reason)
reason_off env step off = elim (Option-cases (step_toggle_reason env step)) [
  | inr found ↦ found
  | inl e ↦ absurd (unfold step_toggle_reason in ground (arith, off, e))
]

not_zero : (code : ℤ) → eqb_ℤ code (pos 0) ≡ false → some code ≢ some (pos 0)
not_zero code h e = ground (arith, h, eqb_ℤ_iff code (pos 0))

module _ (world : World) (env : Environ) (mode_args : List String) where
  -- A step that ends with 0.
  abbrev pub Succeeds : Step → Type 0
  Succeeds step = step_code (world.outcome step (step_mode_args step mode_args)) ≡ some (pos 0)

  abbrev pub ran : Step → Action
  ran step = run step (step_mode_args step mode_args)

  pub run_all_lem :
      (steps : List Step)
      → ((run_all world env mode_args steps).actions ≡ map ran (enabled_of env steps))
        × (((run_all world env mode_args steps).failures ≡ [])
            ↔ All Succeeds (enabled_of env steps))
  unfolding run_all round enabled_of
  run_all_lem [] = (refl, ((λ h. tt), (λ h. refl)))
  run_all_lem (step ∷ steps) =
      let (acts, fails) = run_all_lem steps in
      elim (Bool-cases (is_step_enabled env step)) [
        | inr off ↦
            let (reason, e) = reason_off env step off in
            rw (run_all, round, enabled_of, off, e) (acts, fails)
        | inl on ↦
            let e = reason_on env step on in
            elim (Option-cases (step_code (world.outcome step (step_mode_args step mode_args)))) [
              | inl c ↦
                  rw (run_all, round, enabled_of, on, e, c) (rw acts refl, ((λ h. cc), (λ h. cc)))
              | inr (code, c) ↦ elim (Bool-cases (eqb_ℤ code (pos 0))) [
                | inl z ↦
                    let zero : code ≡ pos 0 = ground (arith, z, eqb_ℤ_iff code (pos 0)) in
                    rw (run_all, round, enabled_of, on, e, c, z, zero)
                      (rw acts refl, ((λ h. (refl, fails.0 h)), (λ h. fails.1 h.1)))
                | inr nz ↦
                    rw (run_all, round, enabled_of, on, e, c, nz)
                      (rw acts refl, ((λ h. cc), (λ h. absurd (not_zero code nz h.0))))
              ]
            ]
      ]

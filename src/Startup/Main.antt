-- ===== src/Startup/Main.antt =====
-- `main`: what comes before the steps, and what the exit status says of them.
use hpa_with_bmad.Base.{
  ℕ, ℤ, pos, eqb_ℤ, eqb_ℤ_iff, String, Bool, true, false, ◌&&◌, some, List, [], ◌∷◌, ◌++◌,
  if◌then◌else◌, map, All, ◌≡◌, ◌≢◌, ◌↔◌, ◌⊎◌, refl, arith, Bool-cases, Option-cases, inl, inr,
}
use hpa_with_bmad.Versions.{Environ, valid_storage_backend}
use hpa_with_bmad.Startup.{Step, Arguments, member}
use hpa_with_bmad.Startup.Select.{Selection, selected_are, unknown, selected_steps}
use hpa_with_bmad.Startup.Modes.{build_mode_args}
use hpa_with_bmad.Startup.Run.{
  Action, render_apps, ensure_registry, World, Result, Loop, run_all, teardown_existing_cluster,
  finish, wants_registry, provisions, after_teardown, after_registry, prepare_and_run, filled,
  exported, with_steps, main,
}
use hpa_with_bmad.Startup.Order.{Prepares, Prepares-append, enabled_of, Succeeds, ran, run_all_lem}

-- A run that came to its steps: what was prepared came first and succeeded where it was needed, then
-- each selected step that is enabled was run once, in order, and the exit status is 0 exactly if all of
-- them ended with 0.
pub record HasRun (world : World) (env : Environ) (mode_args : List String) (selected : List Step)
    (r : Result) : Type 0 where
  pub before : List Action
  pub prepared : Prepares before
  pub actions : r.actions ≡ before ++ map (ran world env mode_args) (enabled_of env selected)
  pub registry :
      (member "--apply" mode_args && world.registry_exists && wants_registry selected) ≡ true
      → world.registry_code ≡ pos 0
  pub cluster_gone :
      (member "--apply" mode_args && provisions selected) ≡ true
      → (world.first_check.gone ≡ true) ⊎ (world.second_check.gone ≡ true)
  pub verdict : (r.code ≡ 0) ↔ All (Succeeds world env mode_args) (enabled_of env selected)

-- A run that stopped before its steps.
pub record HasStopped (r : Result) : Type 0 where
  pub failed : r.code ≢ 0
  pub actions : Prepares r.actions

teardown-Prepares : (world : World) → Prepares (teardown_existing_cluster world).1
unfolding teardown_existing_cluster
teardown-Prepares world = elim (Bool-cases (eqb_ℤ world.first_check.code (pos 0))) [
  | inr e ↦ rw (teardown_existing_cluster, e) (refl, tt)
  | inl e ↦ elim (Bool-cases world.first_check.gone) [
    | inl g ↦ rw (teardown_existing_cluster, e, g) (refl, tt)
    | inr g ↦ rw (teardown_existing_cluster, e, g) (refl, (refl, (refl, tt)))
  ]
]

teardown_gone :
    (world : World)
    → (teardown_existing_cluster world).0 ≡ true
    → (world.first_check.gone ≡ true) ⊎ (world.second_check.gone ≡ true)
unfolding teardown_existing_cluster
teardown_gone world h = ground arith

List-cases :
    (fs : List (String × ℤ))
    → (fs ≡ []) ⊎ ((f : String × ℤ) × (rest : List (String × ℤ)) × (fs ≡ f ∷ rest))
List-cases [] = inl refl
List-cases (f ∷ fs) = inr (f, fs, refl)

finish_lem :
    (before : List Action) (log : List String) (loop : Loop)
    → ((finish before log loop).actions ≡ before ++ loop.actions)
      × (((finish before log loop).code ≡ 0) ↔ (loop.failures ≡ []))
finish_lem before log loop = elim (List-cases loop.failures) [
  | inl e ↦ rw e (refl, ((λ h. refl), (λ h. refl)))
  | inr (f, rest, e) ↦ rw e (refl, ((λ h. absurd (ground (arith, h))), (λ h. cc)))
]

module _ (world : World) (env : Environ) (mode_args : List String) (selected : List Step) where
  abbrev Ends : Result → Type 0
  Ends r = HasRun world env mode_args selected r ⊎ HasStopped r

  finish-HasRun :
      (before : List Action) (log : List String)
      → Prepares before
      → ((member "--apply" mode_args && world.registry_exists && wants_registry selected) ≡ true
          → world.registry_code ≡ pos 0)
      → ((member "--apply" mode_args && provisions selected) ≡ true
          → (world.first_check.gone ≡ true) ⊎ (world.second_check.gone ≡ true))
      → HasRun world env mode_args selected
          (finish before log (run_all world env mode_args selected))
  finish-HasRun before log prepared registry gone =
      let loop = run_all world env mode_args selected in
      let (acts, fails) = run_all_lem world env mode_args selected in
      let (ends, code) = finish_lem before log loop in
      record {
        before = before;
        prepared = prepared;
        actions = rw (ends, acts) refl;
        registry = registry;
        cluster_gone = gone;
        verdict = ((λ h. fails.0 (code.0 h)), (λ h. code.1 (fails.1 h)));
      }

  teardown-Ends :
      (before : List Action) (log : List String)
      → Prepares before
      → ((member "--apply" mode_args && world.registry_exists && wants_registry selected) ≡ true
          → world.registry_code ≡ pos 0)
      → Ends (after_registry world env mode_args selected before log)
  unfolding after_registry after_teardown
  teardown-Ends before log prepared registry =
      elim (Bool-cases (member "--apply" mode_args && provisions selected)) [
        | inr other ↦
            rw (after_registry, other)
              (inl (
                finish-HasRun before log prepared registry
                  (λ h. absurd (ground (arith, h, other)))))
        | inl needed ↦
            let actions = (teardown_existing_cluster world).1 in
            let done = Prepares-append before actions prepared (teardown-Prepares world) in
            elim (Bool-cases (teardown_existing_cluster world).0) [
              | inl gone ↦
                  rw (after_registry, needed, after_teardown, gone)
                    (inl (
                      finish-HasRun (before ++ actions) _ done registry
                        (λ h. teardown_gone world gone)))
              | inr there ↦
                  rw (after_registry, needed, after_teardown, there)
                    (inr record { failed = λ h. ground (arith, h); actions = done })
            ]
      ]

  prepare-Ends :
      (before : List Action) (log : List String)
      → Prepares before
      → Ends (prepare_and_run world env mode_args selected before log)
  unfolding prepare_and_run
  prepare-Ends before log prepared =
      let with_registry = Prepares-append before (ensure_registry ∷ []) prepared (refl, tt) in
      elim (Bool-cases
        (member "--apply" mode_args && world.registry_exists && wants_registry selected)) [
          | inr other ↦
              rw (prepare_and_run, other)
                (teardown-Ends before log prepared (λ h. absurd (ground (arith, h, other))))
          | inl needed ↦ elim (Bool-cases (eqb_ℤ world.registry_code (pos 0))) [
            | inl zero ↦
                let registry_ok : world.registry_code ≡ pos 0 =
                  ground (arith, zero, eqb_ℤ_iff world.registry_code (pos 0)) in
                rw (prepare_and_run, needed, zero)
                  (teardown-Ends (before ++ ensure_registry ∷ []) log with_registry
                    (λ h. registry_ok))
            | inr bad ↦
                rw (prepare_and_run, needed, bad)
                  (inr record { failed = λ h. ground (arith, h); actions = with_registry })
          ]
        ]

Selection-cases :
    (s : Selection)
    → ((t : String) × (s ≡ unknown t)) ⊎ ((steps : List Step) × (s ≡ selected_are steps))
Selection-cases (unknown t) = inl (t, refl)
Selection-cases (selected_are steps) = inr (steps, refl)

before_Prepares : (b : Bool) → Prepares (if b then render_apps ∷ [] else [])
before_Prepares true = (refl, tt)
before_Prepares false = tt

steps_outcome :
    (tenth : ℕ → ℕ) (command : String) (world : World) (env : Environ) (args : Arguments)
    (steps : List Step)
    → HasStopped (with_steps tenth command world env args steps)
      ⊎ ((mode_args : List String) × (selected : List Step) × (build_mode_args args
            ≡ some mode_args)
          × (selected_steps tenth steps args.step ≡ selected_are selected)
          × HasRun world env mode_args selected (with_steps tenth command world env args steps))
unfolding with_steps
steps_outcome tenth command world env args [] =
    inl record { failed = λ h. ground (arith, h); actions = tt }
steps_outcome tenth command world env args (step ∷ steps) =
    let prepared = before_Prepares world.renderer_exists in
    elim (Option-cases (build_mode_args args)) [
      | inl e ↦
          rw (with_steps, e) (inl record { failed = λ h. ground (arith, h); actions = prepared })
      | inr (mode_args, e) ↦
          elim (Selection-cases (selected_steps tenth (step ∷ steps) args.step)) [
            | inl (t, c) ↦
                rw (with_steps, e, c)
                  (inl record { failed = λ h. ground (arith, h); actions = prepared })
            | inr (selected, c) ↦ elim (prepare-Ends world env mode_args selected _ _ prepared) [
              | inl ran_all ↦ inr (mode_args, selected, e, c, rw (with_steps, e, c) ran_all)
              | inr halted ↦ rw (with_steps, e, c) (inl halted)
            ]
          ]
    ]

-- Whatever the world is, `main` ends in one of two ways. Either it ran the steps: preparations came
-- first; where an apply needs the registry it was ensured with code 0, and where it provisions, no
-- cluster was left running; then each selected step that the toggles enable ran once, in order and with
-- its arguments; and the exit status is 0 exactly if every one of them ended with 0. Or it stopped with
-- another status before any step.
pub main_outcome :
    (tenth : ℕ → ℕ) (command : String) (world : World) (env : Environ) (given : Arguments)
    → HasStopped (main tenth command world env given)
      ⊎ ((mode_args : List String) × (selected : List Step) × (build_mode_args (filled env given)
            ≡ some mode_args)
          × (selected_steps tenth world.steps given.step ≡ selected_are selected)
          × HasRun world
              (exported env (filled env given))
              mode_args
              selected
              (main tenth command world env given))
unfolding main
main_outcome tenth command world env given =
    elim (Bool-cases (valid_storage_backend (exported env (filled env given)))) [
      | inr bad ↦ rw (main, bad) (inl record { failed = λ h. ground (arith, h); actions = tt })
      | inl good ↦
          rw (main, good)
            (steps_outcome tenth command world (exported env (filled env given)) (filled env given)
              world.steps)
    ]

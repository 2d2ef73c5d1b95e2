-- ===== src/Startup/Run.antt =====
-- A run: the preparations before the steps, the steps, and the exit status.
use hpa_with_bmad.Base.{
  ℕ, ℤ, pos, negsuc, suc, eqb, eqb_ℤ, String, Bool, true, false, not, ◌&&◌, ◌||◌, Option, none,
  some, List, [], ◌∷◌, ◌++◌, lookup, insert, string_eq, ◌==◌, decimal, ◌+++◌, any, if◌then◌else◌,
}
use hpa_with_bmad.Versions.{Environ, valid_storage_backend}
use hpa_with_bmad.Startup.{Step, Arguments, member}
use hpa_with_bmad.Startup.Toggles.{step_toggle_reason}
use hpa_with_bmad.Startup.Select.{unknown, selected_are, selected_steps}
use hpa_with_bmad.Startup.Modes.{build_mode_args, step_mode_args}

-- How the `main` of a step ends: with a number, with a value that `int` refuses, by SystemExit with a
-- number or None, or with a text, or by another exception.
pub data Outcome : Type 0 where
  returned : ℤ → Outcome
  no_number : Outcome
  exited : ℤ → Outcome
  exited_text : Outcome
  failed : Outcome

-- What a run does outside of its own process, in order.
pub data Action : Type 0 where
  render_apps : Action
  ensure_registry : Action
  check_cluster : Action
  stop_cluster : Action
  run : Step → List String → Action

-- An answer of `stop.dev.py --check`: its code, and whether it prints that no cluster is running.
pub record StopCheck : Type 0 where
  pub code : ℤ
  pub gone : Bool

-- What a run meets: the scripts that are there and what they answer, and the steps.
pub record World : Type 0 where
  pub steps : List Step
  pub renderer_exists : Bool
  pub registry_exists : Bool
  pub registry_code : ℤ
  pub first_check : StopCheck
  pub second_check : StopCheck
  pub outcome : Step → List String → Outcome
  -- the lines that a step prints, those on stderr after their heading
  pub output : Step → List String → List String

pub record Result : Type 0 where
  pub code : ℕ
  pub actions : List Action
  pub log : List String

-- `run_step`: its code; `none` is the ValueError of a text as exit status, which it does not catch
abbrev pub step_code : Outcome → Option ℤ
step_code (returned n) = some n
step_code no_number = some (pos 1)
step_code (exited n) = some n
step_code exited_text = none
step_code failed = some (pos 1)

abbrev pub show_ℤ : ℤ → String
show_ℤ (pos n) = decimal n
show_ℤ (negsuc n) = "-" +++ decimal (suc n)

-- The lines of one step in the log.
abbrev pub step_lines : Step → ℤ → List String → List String
step_lines step code output =
    ("== " +++ step.name +++ ": " +++ step.description +++ " ==")
    ∷ ("exit code: " +++ show_ℤ code)
    ∷ output

-- `failures.append(...)`, if the code is not 0
abbrev pub failure_of : Step → ℤ → List (String × ℤ)
failure_of step code = if eqb_ℤ code (pos 0) then [] else (step.name, code) ∷ []

-- What the loop over the steps leaves: the failures, the actions and the lines of the log.
pub record Loop : Type 0 where
  pub failures : List (String × ℤ)
  pub actions : List Action
  pub log : List String

module _ (world : World) (env : Environ) (mode_args : List String) where
  -- One round of the loop, before what the later rounds leave.
  unfoldable pub round : Step → Loop → Loop
  round step later = elim (step_toggle_reason env step) [
    | some reason ↦ record later { log = reason ∷ later.log }
    | none ↦
        let words = step_mode_args step mode_args in
        elim (step_code (world.outcome step words)) [
          | none ↦ record later {
            failures = (step.name, pos 1) ∷ later.failures;
            actions = run step words ∷ later.actions;
          }
          | some code ↦ record {
            failures = failure_of step code ++ later.failures;
            actions = run step words ∷ later.actions;
            log = step_lines step code (world.output step words) ++ later.log;
          }
        ]
  ]

  -- The loop over the selected steps.
  unfoldable pub run_all : List Step → Loop
  run_all [] = record { failures = []; actions = []; log = [] }
  run_all (step ∷ steps) = round step (run_all steps)

-- `teardown_existing_cluster`: whether it succeeds, and what it does
unfoldable pub teardown_existing_cluster : World → Bool × List Action
teardown_existing_cluster world =
    if not (eqb_ℤ world.first_check.code (pos 0))
    then (false, check_cluster ∷ [])
    else if world.first_check.gone
    then (true, check_cluster ∷ [])
    else (
      eqb_ℤ world.second_check.code (pos 0) && world.second_check.gone,
      check_cluster ∷ stop_cluster ∷ check_cluster ∷ [],
    )

abbrev failure_lines : List (String × ℤ) → List String
failure_lines [] = []
failure_lines ((name, code) ∷ failures) =
    ("- " +++ name +++ ": exit code " +++ show_ℤ code) ∷ failure_lines failures

-- The end of `main`. What the log has between the steps and the end, the table of the run with its
-- times and the list of what was skipped, is left out.
abbrev pub finish : List Action → List String → Loop → Result
finish before log loop = elim loop.failures [
  | [] ↦ record {
    code = 0;
    actions = before ++ loop.actions;
    log = log ++ loop.log ++ "" ∷ "" ∷ "HPDC dev setup completed." ∷ [];
  }
  | first ∷ rest ↦ record {
    code = 1;
    actions = before ++ loop.actions;
    log = log ++ loop.log ++ "" ∷ "HPDC dev step run failed:" ∷ failure_lines (first ∷ rest);
  }
]

abbrev pub stopped : ℕ → List Action → List String → Result
stopped code actions log = record { code = code; actions = actions; log = log }

-- `step.number in (2, 5)` and `step.number == 2`, of ten times the number
abbrev pub wants_registry : List Step → Bool
wants_registry steps = any (λ s. eqb s.number 20 || eqb s.number 50) steps

abbrev pub provisions : List Step → Bool
provisions steps = any (λ s. eqb s.number 20) steps

module _ (world : World) (env : Environ) where
  -- From the teardown on, for how it ends.
  unfoldable pub after_teardown :
      List String → List Step → List Action → List String → Bool × List Action → Result
  after_teardown mode_args selected before log (gone, actions) =
      if gone
      then finish (before ++ actions)
          (log ++ "Cluster teardown complete; proceeding with provisioning." ∷ [])
          (run_all world env mode_args selected)
      else stopped 1 (before ++ actions)
          (log ++ "Cluster teardown failed; aborting before provisioning." ∷ [])

  -- The teardown, where step 02 is applied, and the steps.
  unfoldable pub after_registry : List String → List Step → List Action → List String → Result
  after_registry mode_args selected before log =
      if member "--apply" mode_args && provisions selected
      then after_teardown mode_args selected before log (teardown_existing_cluster world)
      else finish before log (run_all world env mode_args selected)

  -- From the registry on.
  unfoldable pub prepare_and_run : List String → List Step → List Action → List String → Result
  prepare_and_run mode_args selected before log =
      if member "--apply" mode_args && world.registry_exists && wants_registry selected
      then if eqb_ℤ world.registry_code (pos 0)
        then after_registry mode_args selected (before ++ ensure_registry ∷ []) log
        else stopped 1 (before ++ ensure_registry ∷ [])
            (log ++ "image registry ensure failed; aborting." ∷ [])
      else after_registry mode_args selected before log

-- `args.provider` and `args.storage`, as `main` fills them in
abbrev pub filled : Environ → Arguments → Arguments
filled env args = record args {
  provider = elim args.provider [
    | some p ↦ some p
    | none ↦ elim (lookup "HPDC_PROVIDER" env) [ none ↦ some "kind" | some p ↦ some p ]
  ];
  storage = elim args.storage [
    | some s ↦ some s
    | none ↦ elim (lookup "HPDC_STORAGE_BACKEND" env) [
      | none ↦ some "local-path"
      | some s ↦ if s == "" then some "local-path" else some s
    ]
  ];
}

abbrev export : String → Option String → Environ → Environ
export name none env = env
export name (some value) env = insert name value env

-- The environment that `main` leaves for the steps.
abbrev pub exported : Environ → Arguments → Environ
exported env args =
    export "HPDC_STORAGE_BACKEND" args.storage (export "HPDC_PROVIDER" args.provider env)

-- What the float makes of the labels, and the command line that the log holds.
module _ (tenth : ℕ → ℕ) (command : String) where
  -- From the discovery of the steps on, for the arguments as they are filled in.
  unfoldable pub with_steps : World → Environ → Arguments → List Step → Result
  with_steps world environ args [] =
      stopped 2 [] ("No HPDC dev steps found under scripts/steps/." ∷ [])
  with_steps world environ args (step ∷ steps) =
      let before = if world.renderer_exists then render_apps ∷ [] else [] in
      elim (build_mode_args args) [
        | none ↦ stopped 2 before (
            ((if args.apply then "--apply" else "--check")
              +++ " and --dry-run cannot be used together")
            ∷ [])
        | some mode_args ↦ elim (selected_steps tenth (step ∷ steps) args.step) [
          | unknown selection ↦ stopped 2 before (("unknown step: " +++ selection) ∷ [])
          | selected_are selected ↦
              prepare_and_run world environ mode_args selected before
                ("HPDC dev startup log" ∷ ("command: " +++ command) ∷ "" ∷ [])
        ]
      ]

  -- `main` without `--status` and `--list`, in the environment that `load_all_dotenv` leaves
  unfoldable pub main : World → Environ → Arguments → Result
  main world env given =
      let args = filled env given in
      let environ = exported env args in
      if valid_storage_backend environ
      then with_steps world environ args world.steps
      else stopped 2 [] []

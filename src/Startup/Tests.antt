-- ===== src/Startup/Tests.antt =====
-- Runs of the startup, and its theorems at concrete inputs.
use hpa_with_bmad.Base.{
  ℕ, pos, String, true, false, some, List, [], ◌∷◌, ◌≡◌, ◌⊎◌, refl, lookup, string_eq,
  if◌then◌else◌, has_key, insert, strip_suffix, strip_prefix, lower, strip, ◌+++◌,
}
use hpa_with_bmad.Versions.{
  Environ, valid_storage_backend, is_enabled, var_enabled, toggle_var, truthy,
}
use hpa_with_bmad.Startup.{Step, Arguments, member, stem_of}
use hpa_with_bmad.Startup.Toggles.{is_step_enabled, step_toggle_reason}
use hpa_with_bmad.Startup.Select.{selected_are, selected_steps}
use hpa_with_bmad.Startup.Modes.{build_mode_args, storage_word, step_mode_args, never_told_to_apply}
use hpa_with_bmad.Startup.Run.{
  returned, render_apps, ensure_registry, check_cluster, run, World, StopCheck, main, with_steps,
  prepare_and_run, after_registry, after_teardown, teardown_existing_cluster, run_all, round,
  filled, exported,
}
use hpa_with_bmad.Startup.Main.{HasRun, HasStopped, main_outcome}

abbrev scaffold : Step
scaffold = record {
  file = "01-bootstrap-dev.py";
  number = 10;
  name = "01-bootstrap-dev.py";
  description = "Bootstrap the HPDC monorepo scaffold.";
}

abbrev provision : Step
provision = record {
  file = "02-bootstrap-talos-dev.py";
  number = 20;
  name = "02-bootstrap-talos-dev.py";
  description = "Provision";
}

abbrev casdoor : Step
casdoor = record {
  file = "19-install-casdoor-dev.py";
  number = 190;
  name = "19-install-casdoor-dev.py";
  description = "Casdoor";
}

abbrev no_cluster : StopCheck
no_cluster = record { code = pos 0; gone = true }

abbrev world : World
world = record {
  steps = scaffold ∷ provision ∷ casdoor ∷ [];
  renderer_exists = true;
  registry_exists = true;
  registry_code = pos 0;
  first_check = no_cluster;
  second_check = no_cluster;
  outcome = λ step words. returned (pos 0);
  output = λ step words. [];
}

abbrev env : Environ
env = ("HPDC_CASDOOR_ENABLED", "false") ∷ []

abbrev dry : Arguments
dry = record {
  dry_run = false;
  apply = false;
  check = false;
  step = [];
  storage = some "local-path";
  provider = some "kind";
}

abbrev applying : Arguments
applying = record dry { apply = true }

abbrev tenth : ℕ → ℕ
tenth n = n

applied :
    (main tenth "" world env applying).actions
    ≡ render_apps
      ∷ ensure_registry
      ∷ check_cluster
      ∷ run scaffold []
      ∷ run provision ("--storage" ∷ "local-path" ∷ [])
      ∷ []
unfolding main with_steps prepare_and_run after_registry after_teardown teardown_existing_cluster
    run_all round step_toggle_reason is_step_enabled stem_of strip_suffix strip_prefix lower strip
    lookup has_key insert is_enabled var_enabled toggle_var truthy valid_storage_backend
    build_mode_args selected_steps step_mode_args storage_word ◌+++◌
applied = refl

main_outcome_example :
    HasStopped (main tenth "" world env applying)
    ⊎ ((mode_args : List String) × (selected : List Step) × (build_mode_args (filled env applying)
          ≡ some mode_args)
        × (selected_steps tenth world.steps [] ≡ selected_are selected)
        × HasRun world
            (exported env (filled env applying))
            mode_args
            selected
            (main tenth "" world env applying))
main_outcome_example = main_outcome tenth "" world env applying

abbrev dry_words : List String
dry_words = "--offline" ∷ "--dry-run" ∷ "--storage" ∷ "local-path" ∷ "--provider" ∷ "kind" ∷ []

-- In a dry run step 01 is given nothing, and without arguments it writes its files.
scaffold_unrestrained : step_mode_args scaffold dry_words ≡ []
unfolding step_mode_args
scaffold_unrestrained = refl

never_told_to_apply_example :
    (member "--apply" (step_mode_args casdoor dry_words) ≡ false)
    × ((member (if false then "--check" else "--dry-run") (step_mode_args casdoor dry_words) ≡ true)
        ⊎ ((step_mode_args casdoor dry_words ≡ [])
            × (casdoor.name ≡ "01-bootstrap-dev.py")
            × (dry.check ≡ false)))
never_told_to_apply_example =
    never_told_to_apply dry dry_words casdoor refl (refl, refl, refl) (refl, refl, refl)
      (unfold build_mode_args in refl)

-- ===== src/AppOfApps/Tests.antt =====
-- Runs of the renderer, and its theorem at concrete folders.
use hpa_with_bmad.Base.{
  String, true, false, none, some, [], ◌∷◌, ◌≡◌, refl, lookup, insert, remove, string_eq,
  if◌then◌else◌, ends_with, strip_suffix, strip_prefix, lower, strip, ◌+++◌,
}
use hpa_with_bmad.Versions.{Environ, is_enabled, var_enabled, toggle_var, truthy}
use hpa_with_bmad.AppOfApps.{
  Folder, Apps, is_app_enabled, is_yaml, stem, yaml_names, keep, bootstrap_apps_all, place,
  place_all, clean, render, main,
}
use hpa_with_bmad.AppOfApps.Rendered.{rendered_apps, file, wanted}

abbrev env : Environ
env = ("HPDC_PULSAR_ENABLED", "false") ∷ ("HPDC_CASDOOR_ENABLED", "true") ∷ []

abbrev sources : Folder
sources = ("casdoor.yaml", "new") ∷ ("pulsar.yaml", "p") ∷ ("platform.yaml", "q") ∷ []

abbrev before : Apps
before = record {
  apps_all = some sources;
  apps = some (
      ("casdoor.yaml", "old")
      ∷ ("pulsar.yaml", "p")
      ∷ ("stale.yaml", "s")
      ∷ ("README.md", "r")
      ∷ []);
}

names_found : yaml_names sources ≡ "casdoor.yaml" ∷ "pulsar.yaml" ∷ "platform.yaml" ∷ []
unfolding yaml_names is_yaml ends_with strip_suffix ◌+++◌
names_found = refl

after_run :
    (main env false before).1.apps
    ≡ some (("casdoor.yaml", "new") ∷ ("README.md", "r") ∷ ("platform.yaml", "q") ∷ [])
unfolding main bootstrap_apps_all render yaml_names is_yaml ends_with strip_suffix ◌+++◌ place_all
    place clean keep insert remove lookup is_app_enabled stem is_enabled var_enabled toggle_var
    truthy strip_prefix lower strip
after_run = refl

-- A dry run on a repository without gitops/apps.all moves the files all the same.
dry_run_moves :
    main env true (record { apps_all = none; apps = some (("casdoor.yaml", "old") ∷ []) })
    ≡ (0, record { apps_all = some (("casdoor.yaml", "old") ∷ []); apps = some [] })
unfolding main bootstrap_apps_all render yaml_names keep is_yaml ends_with strip_suffix ◌+++◌
dry_run_moves = refl

rendered_apps_example :
    ((main env false before).0 ≡ 0)
    × ((main env false before).1.apps_all ≡ some sources)
    × ((j : String)
        → file j (main env false before).1.apps
          ≡ (if is_yaml j then wanted env sources j else file j before.apps))
rendered_apps_example =
    rendered_apps env sources before "casdoor.yaml" ("pulsar.yaml" ∷ "platform.yaml" ∷ []) refl
      names_found

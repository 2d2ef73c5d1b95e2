-- ===== src/AppOfApps.antt =====
-- scripts/gitops/render_app_of_apps.py: the applications that ArgoCD is given, by the toggles.
pub mod Rendered
pub mod Tests
use hpa_with_bmad.Base.{
  ℕ, String, Bool, true, false, not, ◌&&◌, Option, none, some, List, [], ◌∷◌, Dict, lookup, insert,
  remove, string_eq, ◌==◌, any, if◌then◌else◌, ends_with, strip_suffix,
}
use hpa_with_bmad.Versions.{Environ, is_enabled}

-- A folder: its files by their names.
abbrev pub Folder : Type 0
Folder = Dict String String

-- gitops/apps.all and gitops/apps; `none` is a folder that does not exist.
pub record Apps : Type 0 where
  pub apps_all : Option Folder
  pub apps : Option Folder

-- `APP_TOGGLE_MAP`
abbrev pub app_toggle_map : Dict String String
app_toggle_map =
    ("alerts", "ALERTMANAGER_ENABLED")
    ∷ ("backstage", "BACKSTAGE_ENABLED")
    ∷ ("casbin", "CASBIN_ENABLED")
    ∷ ("casdoor", "CASDOOR_ENABLED")
    ∷ ("crds-gateway", "ENVOY_GATEWAY_ENABLED")
    ∷ ("crds-pulsar", "PULSAR_ENABLED")
    ∷ ("envoy-gateway", "ENVOY_GATEWAY_ENABLED")
    ∷ ("infisical", "INFISICAL_ENABLED")
    ∷ ("observability", "GRAFANA_ENABLED")
    ∷ ("openapi", "SWAGGER_UI_ENABLED")
    ∷ ("pulsar", "PULSAR_ENABLED")
    ∷ ("victoria-metrics", "VICTORIA_METRICS_ENABLED")
    ∷ ("security", "CILIUM_ENABLED")
    ∷ []

-- `ALWAYS_INCLUDED`
abbrev pub always_included : List String
always_included = "crds-hpdc" ∷ "platform" ∷ []

abbrev pub member : String → List String → Bool
member s names = any (λ n. n == s) names

-- `is_app_enabled`, without its reason
unfoldable pub is_app_enabled : Environ → String → Bool
is_app_enabled env app_stem =
    if member app_stem always_included then true else elim (lookup app_stem app_toggle_map) [
      | none ↦ false
      | some toggle_var ↦ is_enabled env toggle_var
    ]

-- The names that `glob("*.yaml")` finds.
unfoldable pub is_yaml : String → Bool
is_yaml name = ends_with ".yaml" name

-- `path.stem` of such a name; the name `.yaml` has no suffix
unfoldable pub stem : String → String
stem name = elim (strip_suffix ".yaml" name) [ none ↦ name | some s ↦ if s == "" then name else s ]

unfoldable pub yaml_names : Folder → List String
yaml_names [] = []
yaml_names ((name, _) ∷ folder) =
    let rest = yaml_names folder in if is_yaml name then name ∷ rest else rest

-- The files of a folder of which the test holds, and the others.
unfoldable pub keep : (String → Bool) → Folder → Folder
keep test [] = []
keep test ((name, content) ∷ folder) =
    let rest = keep test folder in if test name then (name, content) ∷ rest else rest

abbrev pub files_of : Option Folder → Folder
files_of none = []
files_of (some folder) = folder

-- `bootstrap_apps_all`
unfoldable pub bootstrap_apps_all : Apps → Apps
bootstrap_apps_all s = elim s.apps_all [
  | some _ ↦ s
  | none ↦ elim s.apps [
    | none ↦ s
    | some folder ↦ record {
      apps_all = some (keep is_yaml folder);
      apps = some (keep (λ name. not (is_yaml name)) folder);
    }
  ]
]

-- One round of the loop over the applications: a copy, which makes the folder, or a removal.
unfoldable pub place : Environ → Folder → String → Option Folder → Option Folder
place env apps_all name apps =
    if is_app_enabled env (stem name)
    then elim (lookup name apps_all) [
      | none ↦ apps
      | some content ↦ some (insert name content (files_of apps))
    ]
    else elim apps [ none ↦ none | some folder ↦ some (remove name folder) ]

unfoldable pub place_all : Environ → Folder → List String → Option Folder → Option Folder
place_all env apps_all [] apps = apps
place_all env apps_all (name ∷ names) apps =
    place_all env apps_all names (place env apps_all name apps)

-- The removal of the stale files.
unfoldable pub clean : List String → Option Folder → Option Folder
clean valid_names none = none
clean valid_names (some folder) =
    some (keep (λ name. not (is_yaml name && not (member name valid_names))) folder)

-- `main` from the source folder on, for names that are its applications.
unfoldable pub render : Environ → Bool → Folder → List String → Apps → ℕ × Apps
render env dry_run apps_all [] s = (1, s)
render env dry_run apps_all (name ∷ names) s = if dry_run then (0, s) else (
  0,
  record s { apps = clean (name ∷ names) (place_all env apps_all (name ∷ names) s.apps) },
)

-- `main` with the default folders, in the environment that `load_all_dotenv` leaves; what it prints
-- is not modelled, nor that it walks the applications in the order of their names
unfoldable pub main : Environ → Bool → Apps → ℕ × Apps
main env dry_run s =
    let t = bootstrap_apps_all s in
    elim t.apps_all [
      | none ↦ (1, t)
      | some apps_all ↦ render env dry_run apps_all (yaml_names apps_all) t
    ]

-- ===== src/Versions/Tests.antt =====
-- Runs of the version resolution, and its theorems at concrete inputs.
use hpa_with_bmad.Base.{
  All, String, none, some, Option, List, [], ◌∷◌, ◌≡◌, refl, lookup, insert, has_key, string_eq,
  ◌+++◌, strip_prefix, strip_suffix, strip, before, partition, starts_with, decimal,
}
use hpa_with_bmad.Versions.{
  all_images, Environ, load_dotenv, load_lines, parse_line, assignment, clean_value, setdefault,
  or_else, is_enabled, resolve, image_refs,
}
use hpa_with_bmad.Versions.Catalog.{Image, catalog}
use hpa_with_bmad.Versions.Tables.{version_defaults}
use hpa_with_bmad.Versions.Layers.{first_in, lookup-load_dotenv}
use hpa_with_bmad.Versions.Toggles.{IsBare, expected, is_enabled_forms}
use hpa_with_bmad.Versions.Images.{IsResolved, IsExpanded, resolve-IsResolved, image_refs_total}
use hpa_with_bmad.Versions.Network.{Network, pool, gateway, derive_network_vars, derive, dotted}

abbrev no_env : Environ
no_env = []

abbrev files : List (Option (List String))
files =
    some ("# versions" ∷ "export HPDC_X=1.2 # pinned" ∷ "HPDC_X='1.3'" ∷ [])
    ∷ none
    ∷ some ("HPDC_X=9" ∷ "HPDC_Y = \"7\"" ∷ [])
    ∷ []

first_wins : load_dotenv files [] ≡ ("HPDC_X", "1.2") ∷ ("HPDC_Y", "7") ∷ []
unfolding load_dotenv load_lines parse_line assignment clean_value setdefault has_key lookup insert
    strip strip_prefix before partition starts_with
first_wins = refl

lookup-load_dotenv_example :
    lookup "HPDC_X" (load_dotenv files no_env)
    ≡ or_else (lookup "HPDC_X" no_env) (first_in "HPDC_X" files)
lookup-load_dotenv_example = lookup-load_dotenv "HPDC_X" files no_env

abbrev grafana_on : Environ
grafana_on = ("HPDC_GRAFANA_ENABLED", " Yes ") ∷ []

grafana-IsBare : IsBare "GRAFANA"
unfolding strip_prefix strip_suffix ◌+++◌
grafana-IsBare = record { no_prefix = refl; no_suffix = refl; no_late_prefix = refl }

is_enabled_forms_example :
    (is_enabled grafana_on "GRAFANA" ≡ expected grafana_on ("HPDC_" +++ "GRAFANA" +++ "_ENABLED"))
    × (is_enabled grafana_on ("HPDC_" +++ "GRAFANA")
        ≡ expected grafana_on ("HPDC_" +++ "GRAFANA" +++ "_ENABLED"))
    × (is_enabled grafana_on ("GRAFANA" +++ "_ENABLED")
        ≡ expected grafana_on ("HPDC_" +++ "GRAFANA" +++ "_ENABLED"))
    × (is_enabled grafana_on ("HPDC_" +++ "GRAFANA" +++ "_ENABLED")
        ≡ expected grafana_on ("HPDC_" +++ "GRAFANA" +++ "_ENABLED"))
is_enabled_forms_example = is_enabled_forms grafana_on "GRAFANA" grafana-IsBare

image_refs_total_example :
    ((refs : List (String × String)) × (image_refs (resolve grafana_on) ≡ some refs))
    × All (IsExpanded grafana_on) (all_images catalog)
image_refs_total_example = image_refs_total grafana_on

resolve-IsResolved_example : All (IsResolved grafana_on) version_defaults
resolve-IsResolved_example = resolve-IsResolved grafana_on

abbrev spegel : Image
spegel = record {
  repo = "ghcr.io/spegel-org/spegel";
  tag = "v{spegel_version}";
  marker = "spegel/images/spegel-v{spegel_version}";
}

abbrev new_envoy : Environ
new_envoy = ("HPDC_CILIUM_ENVOY_TAG", "v1.38.0") ∷ []

-- 10.6.0.0/24
abbrev lan : Network
lan = record { address = 168165376; prefixlen = 24 }

documented :
    derive_network_vars (some lan) []
    ≡ some (("HPDC_CILIUM_LB_POOL_RANGE", "10.6.0.240/28") ∷ ("HPDC_GATEWAY_IP", "10.6.0.241") ∷ [])
unfolding derive_network_vars derive pool gateway dotted setdefault has_key lookup insert decimal
    ◌+++◌
documented = refl

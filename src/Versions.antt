-- ===== src/Versions.antt =====
-- scripts/gitops/component_versions.py: the environment files, the toggles of the components, and the
-- versions of their images. The process environment is a dictionary that is passed on.
pub mod Tables
pub mod Catalog
pub mod Network
pub mod Layers
pub mod Toggles
pub mod Images
pub mod Tests
use hpa_with_bmad.Base.{
  ℕ, suc, zero, ◌+◌, String, code, Bool, true, false, Option, none, some, List, [], ◌∷◌, ◌++◌,
  if◌then◌else◌, not, ◌&&◌, ◌||◌, leb, eqb, Dict, lookup, insert, has_key, string_eq, ◌==◌, any,
  starts_with, ends_with, strip_prefix, strip_suffix, lower, strip, partition, before, text_length,
  ◌+++◌, map,
}
use hpa_with_bmad.Regex.{is_space, span}
use hpa_with_bmad.Versions.Tables.{core_toggles, enabled_defaults, version_defaults}
use hpa_with_bmad.Versions.Catalog.{Image, catalog}
use mathlib.Core.Option

-- os.environ
abbrev pub Environ : Type 0
Environ = Dict String String

-- `d.setdefault(k, v)`
unfoldable pub setdefault {ℓ} : {V : Type ℓ} → String → V → Dict String V → Dict String V
setdefault k v d = if has_key k d then d else insert k v d

abbrev pub or_else {ℓ} : {A : Type ℓ} → Option A → Option A → Option A
or_else none later = later
or_else (some a) later = some a

abbrev quoted : ℕ → String → String
quoted mark s = strip (λ c. eqb c mark) s

-- The value of an assignment: without a comment, blanks around, and quotes.
unfoldable pub clean_value : String → String
clean_value value = quoted b'\'' (quoted b'"' (strip is_space (before " #" value)))

-- A line with `=`, after `export ` is taken off.
unfoldable pub assignment : String → Option (String × String)
assignment line = elim (partition b'=' line) [
  | none ↦ none
  | some (key, value) ↦
      if strip is_space key == "" || clean_value value == ""
      then none
      else some (strip is_space key, clean_value value)
]

abbrev without_export : String → String
without_export line = elim (strip_prefix "export " line) [ none ↦ line | some rest ↦ rest ]

-- What a line of an environment file sets. A line with no `=` has no assignment.
unfoldable pub parse_line : String → Option (String × String)
parse_line raw =
    let line = strip is_space raw in
    if line == "" || starts_with "#" line then none else assignment (without_export line)

-- The loop over the lines.
unfoldable pub load_lines : List String → Environ → Environ
load_lines [] env = env
load_lines (raw ∷ lines) env =
    load_lines lines (elim (parse_line raw) [ none ↦ env | some (k, v) ↦ setdefault k v env ])

-- `load_dotenv` on the lines of its files; `none` is a file that cannot be read.
unfoldable pub load_dotenv : List (Option (List String)) → Environ → Environ
load_dotenv [] env = env
load_dotenv (none ∷ files) env = load_dotenv files env
load_dotenv (some lines ∷ files) env = load_dotenv files (load_lines lines env)

-- `_truthy`
unfoldable pub truthy : Option String → Bool
truthy none = false
truthy (some value) =
    any (λ t. lower (strip is_space value) == t) ("true" ∷ "yes" ∷ "y" ∷ "1" ∷ "on" ∷ [])

abbrev pub without_prefix : String → String
without_prefix name = elim (strip_prefix "HPDC_" name) [ none ↦ name | some rest ↦ rest ]

abbrev pub without_suffix : String → String
without_suffix name = elim (strip_suffix "_ENABLED" name) [ none ↦ name | some rest ↦ rest ]

-- The variable that `is_enabled` reads for a component.
unfoldable pub toggle_var : String → String
toggle_var component = "HPDC_" +++ without_suffix (without_prefix component) +++ "_ENABLED"

-- The rest of `is_enabled`, for a variable.
unfoldable pub var_enabled : Environ → String → Bool
var_enabled env var = if any (λ t. t == var) core_toggles then true else elim (lookup var env) [
  | some value ↦ truthy (some value)
  | none ↦ elim (lookup var enabled_defaults) [ none ↦ false | some b ↦ b ]
]

-- `is_enabled`; its warning is not modelled
unfoldable pub is_enabled : Environ → String → Bool
is_enabled env component = var_enabled env (toggle_var component)

unfoldable pub toggles_of : Environ → Dict String Bool → Dict String Bool
toggles_of env [] = []
toggles_of env ((var, _) ∷ rest) =
    (var, is_enabled env (without_suffix (without_prefix var))) ∷ toggles_of env rest

-- `list_toggles`
unfoldable pub list_toggles : Environ → Dict String Bool
unfolding toggles_of
list_toggles env = toggles_of env enabled_defaults

-- Whether `_resolve_storage_backend` returns; it raises ValueError where this is false.
unfoldable pub valid_storage_backend : Environ → Bool
valid_storage_backend env =
    let backend : String = elim (lookup "HPDC_STORAGE_BACKEND" env) [
      | none ↦ "local-path"
      | some b ↦ b
    ] in
    any (λ t. lower (strip is_space backend) == t) ("rook-ceph" ∷ "local-path" ∷ [])

-- `_normalize_var_key`
unfoldable pub normalize_var_key : String → String
normalize_var_key var = lower (without_prefix var)

-- `os.environ.get(var) or default`
unfoldable pub version_of : Environ → String → String → String
version_of env var default = elim (lookup var env) [
  | none ↦ default
  | some v ↦ if v == "" then default else v
]

resolve_all : Environ → Dict String String → Dict String String → Dict String String
resolve_all env [] resolved = resolved
resolve_all env ((var, default) ∷ rest) resolved = resolve_all env rest (
    insert (normalize_var_key var) (version_of env var default)
      (insert var (version_of env var default) resolved))

-- `resolve`: the new `_resolved`
unfoldable pub resolve : Environ → Dict String String
unfolding resolve_all
resolve env = resolve_all env version_defaults []

-- `get`; `none` is its KeyError
unfoldable pub get : Dict String String → String → Option String
get resolved var = lookup var resolved

-- `[a-z_]`
abbrev is_key_char : ℕ → Bool
is_key_char c = (leb b'a' c && leb c b'z') || eqb c b'_'

-- The name in braces that stands at the text's first character.
unfoldable pub placeholder : String → Option String
unfolding span
placeholder s = elim (strip_prefix "{" s) [
  | none ↦ none
  | some rest ↦
      let name = span is_key_char rest in
      if name == "" then none else if starts_with (name +++ "}") rest then some name else none
]

-- `_VAR_RE.sub(sub, template)`, with the count of characters that the last match still covers;
-- `none` is the KeyError of a name that is not resolved.
unfoldable pub expand : Dict String String → ℕ → String → Option String
unfolding placeholder
expand resolved skip String.[] = some String.[]
expand resolved (suc skip) (String.◌∷◌ c s) = expand resolved skip s
expand resolved zero (String.◌∷◌ c s) = elim (placeholder (String.◌∷◌ c s)) [
  | none ↦ Option.map (λ rest. String.◌∷◌ c rest) (expand resolved zero s)
  | some name ↦ elim (lookup name resolved) [
    | none ↦ none
    | some value ↦ Option.map (λ rest. value +++ rest) (expand resolved (text_length name + 1) s)
  ]
]

-- `_resolve_template`
unfoldable pub resolve_template : Dict String String → String → Option String
resolve_template resolved template = expand resolved zero template

-- `f"{repo}:{_resolve_template(tag_template)}"`
unfoldable pub image_ref : Dict String String → Image → Option String
image_ref resolved i = Option.map (λ tag. i.repo +++ ":" +++ tag) (resolve_template resolved i.tag)

refs_of : Dict String String → String → List Image → Option (List (String × String))
refs_of resolved component [] = some []
refs_of resolved component (i ∷ images) = elim (image_ref resolved i) [
  | none ↦ none
  | some ref ↦ Option.map (λ refs. (component, ref) ∷ refs) (refs_of resolved component images)
]

refs_of_all : Dict String String → Dict String (List Image) → Option (List (String × String))
refs_of_all resolved [] = some []
refs_of_all resolved ((component, images) ∷ rest) = elim (refs_of resolved component images) [
  | none ↦ none
  | some refs ↦ Option.map (λ later. refs ++ later) (refs_of_all resolved rest)
]

-- `image_refs`
unfoldable pub image_refs : Dict String String → Option (List (String × String))
unfolding refs_of refs_of_all
image_refs resolved = refs_of_all resolved catalog

substitute : Dict String String → List Image → Dict String String → Option (Dict String String)
substitute resolved [] out = some out
substitute resolved (i ∷ images) out = elim (image_ref resolved i) [
  | none ↦ none
  | some ref ↦ substitute resolved images (setdefault i.repo ref out)
]

unfoldable pub all_images : Dict String (List Image) → List Image
all_images [] = []
all_images ((_, images) ∷ rest) = images ++ all_images rest

-- `substitution_map`
unfoldable pub substitution_map : Dict String String → Option (Dict String String)
unfolding substitute all_images
substitution_map resolved = substitute resolved (all_images catalog) []

-- What the search for a marker comes to: the path below output/, None, or the KeyError.
pub data Marker : Type 0 where
  found : String → Marker
  absent : Marker
  unresolved : Marker

abbrev pub marker_path : Dict String String → String → Marker
marker_path resolved marker =
    if marker == ""
    then absent
    else elim (resolve_template resolved marker) [ none ↦ unresolved | some path ↦ found path ]

unfoldable pub marker_in : Dict String String → String → String → List Image → Marker
marker_in resolved repo ref [] = absent
marker_in resolved repo ref (i ∷ images) =
    let later = marker_in resolved repo ref images in
    if i.repo == repo
    then elim (image_ref resolved i) [
      | none ↦ unresolved
      | some own ↦ if own == ref then marker_path resolved i.marker else later
    ]
    else later

-- `marker_for`
unfoldable pub marker_for : Dict String String → String → String → Marker
unfolding marker_in all_images
marker_for resolved repo ref = marker_in resolved repo ref (all_images catalog)

-- ===== src/Versions/Images.antt =====
-- The references of the catalogued images, and the markers under which they are cached.
use hpa_with_bmad.Base.{
  String, Option, some, List, [], ◌∷◌, ◌≡◌, refl, lookup, insert, strip_prefix, string_eq, lower,
  char_at, starts_with, ◌+++◌, All, Dict, arith, ap, ◌∙◌, ℕ, zero, suc, Bool, true, false, not, any,
  ◌==◌, ◌&&◌, get_elem?, eq_iff, ◌≢◌, ◌⊎◌, inl, inr, none, Bool-cases, Option-cases,
}
use hpa_with_bmad.Versions.{
  Environ, resolve, get, image_refs, version_of, image_ref, resolve_template, expand,
  normalize_var_key, marker_for, found, marker_in, marker_path, all_images,
}
use hpa_with_bmad.Versions.Catalog.{Image, catalog}
use hpa_with_bmad.Versions.Tables.{version_defaults}

abbrev pub is_some : Option String → Bool
is_some none = false
is_some (some _) = true

-- The tag of the image, and its marker if it has one, are resolved.
abbrev pub IsExpanded : Environ → Image → Type 0
IsExpanded env i =
    (is_some (resolve_template (resolve env) i.tag) ≡ true)
    × (is_some (resolve_template (resolve env) i.marker) ≡ true)

-- Whatever the environment, every template of the catalog is resolved, those of the tags and those of
-- the markers: no KeyError.
pub image_refs_total :
    (env : Environ)
    → ((refs : List (String × String)) × (image_refs (resolve env) ≡ some refs))
      × All (IsExpanded env) (all_images catalog)
unfolding image_refs resolve normalize_var_key lookup insert strip_prefix lower char_at image_ref
    resolve_template expand starts_with ◌+++◌ all_images
image_refs_total env = ((_, refl), search tt)

-- The environment's value of a variable, where it is set and not empty, or else the default.
abbrev pub IsVersion : Environ → String → String → String → Type 0
IsVersion env var default v =
    ((lookup var env ≡ some v) × (v ≢ ""))
    ⊎ (((lookup var env ≡ none) ⊎ (lookup var env ≡ some "")) × (v ≡ default))

-- A version variable, and the key that templates use for it, have that value.
abbrev pub IsResolved : Environ → String × String → Type 0
IsResolved env (var, default) =
    (v : String) × IsVersion env var default v
    × (get (resolve env) var ≡ some v)
    × (get (resolve env) (normalize_var_key var) ≡ some v)

version_of-IsVersion :
    (env : Environ) (var default : String) → IsVersion env var default (version_of env var default)
unfolding version_of
version_of-IsVersion env var default = elim (Option-cases (lookup var env)) [
  | inl e ↦ rw (e, version_of) (inr (inl refl, refl))
  | inr (v, e) ↦ elim (Bool-cases (v == "")) [
    | inl empty ↦
        let same : v ≡ "" = ground (arith, empty, eq_iff v "") in
        rw (e, version_of, empty) (inr (inr (ap some same), refl))
    | inr filled ↦
        rw (e, version_of, filled) (inl (refl, (λ h. ground (arith, filled, h, eq_iff v ""))))
  ]
]

-- What `resolve` stores under the two names.
abbrev Stored : Environ → String × String → Type 0
Stored env (var, default) =
    (get (resolve env) var ≡ some (version_of env var default))
    × (get (resolve env) (normalize_var_key var) ≡ some (version_of env var default))

resolve-Stored : (env : Environ) → All (Stored env) version_defaults
unfolding resolve get normalize_var_key lookup insert strip_prefix lower char_at
resolve-Stored env = search tt

Stored-IsResolved :
    (env : Environ) (table : Dict String String)
    → All (Stored env) table
    → All (IsResolved env) table
Stored-IsResolved env [] h = tt
Stored-IsResolved env ((var, default) ∷ table) (h, hs) = (
  (version_of env var default, version_of-IsVersion env var default, h.0, h.1),
  Stored-IsResolved env table hs,
)

-- After `resolve`, whatever the environment, each variable of the table can be read under its own name
-- and under the key of the templates, and both give the environment's value, where it is set and not empty, or else the default.
pub resolve-IsResolved : (env : Environ) → All (IsResolved env) version_defaults
resolve-IsResolved env = Stored-IsResolved env version_defaults (resolve-Stored env)

-- No two images have one repository.
distinct : List Image → Bool
distinct [] = true
distinct (i ∷ images) = not (any (λ j. i.repo == j.repo) images) && distinct images

catalog-distinct : distinct (all_images catalog) ≡ true
unfolding distinct all_images
catalog-distinct = refl

any-get_elem? :
    (test : Image → Bool) (images : List Image) (k : ℕ) (i : Image)
    → any test images ≡ false
    → get_elem? images k ≡ some i
    → test i ≡ false
any-get_elem? test [] k i h e = cc
any-get_elem? test (j ∷ images) zero i h e =
    let same : j ≡ i = ground arith in rw (← same) (ground arith)
any-get_elem? test (j ∷ images) (suc k) i h e = any-get_elem? test images k i (ground arith) e

module _ (resolved : Dict String String) (i : Image) (ref : String) where
  marker_in-own :
      (images : List Image) (k : ℕ)
      → distinct images ≡ true
      → get_elem? images k ≡ some i
      → image_ref resolved i ≡ some ref
      → marker_in resolved i.repo ref images ≡ marker_path resolved i.marker
  unfolding marker_in distinct
  marker_in-own [] k d e own = cc
  marker_in-own (j ∷ images) zero d e own =
      let same : j ≡ i = ground arith in
      let repo : (j.repo == i.repo) ≡ true = rw same ((eq_iff i.repo i.repo).1 refl) in
      let own' : image_ref resolved j ≡ some ref = rw same own in
      rw (marker_in, repo, own', (eq_iff ref ref).1 refl)
        (ap (λ (h : Image). marker_path resolved h.marker) same)
  marker_in-own (j ∷ images) (suc k) d e own =
      let others : any (λ h. j.repo == h.repo) images ≡ false = ground arith in
      let ne : (j.repo == i.repo) ≡ false =
        any-get_elem? (λ h. j.repo == h.repo) images k i others e in
      rw (marker_in, ne) (marker_in-own images k (ground arith) e own)

-- An image of the catalog is found by its reference: whatever the environment, the marker that is
-- looked up for the repository and the reference of an image is the image's own.
pub marker_for-image_ref :
    (env : Environ) (k : ℕ) (i : Image) (ref : String)
    → get_elem? (all_images catalog) k ≡ some i
    → image_ref (resolve env) i ≡ some ref
    → marker_for (resolve env) i.repo ref ≡ marker_path (resolve env) i.marker
unfolding marker_for
marker_for-image_ref env k i ref e own =
    marker_in-own (resolve env) i ref (all_images catalog) k catalog-distinct e own

abbrev pub envoy : String
envoy = "quay.io/cilium/cilium-envoy"

append_nil : (s : String) → s +++ "" ≡ s
unfolding ◌+++◌
append_nil String.[] = refl
append_nil (String.◌∷◌ c s) = ap (λ r. String.◌∷◌ c r) (append_nil s)

version_of-set :
    (env : Environ) (var default v : String)
    → lookup var env ≡ some v
    → (v == "") ≡ false
    → version_of env var default ≡ v
unfolding version_of
version_of-set env var default v set filled = rw (set, version_of, filled) refl

abbrev envoy_tag : String
envoy_tag = "v1.37.5-1786810558-766ccfb37260a43e9d228837aa84ce3faf9f64e7"

envoy_image : (i : Image) × (get_elem? (all_images catalog) 3 ≡ some i)
unfolding all_images
envoy_image = (_, refl)

envoy_ref :
    (env : Environ)
    → image_ref (resolve env) envoy_image.0
      ≡ some (envoy +++ ":" +++ version_of env "HPDC_CILIUM_ENVOY_TAG" envoy_tag +++ "")
unfolding envoy_image resolve normalize_var_key lookup insert strip_prefix lower char_at image_ref
    resolve_template expand starts_with ◌+++◌
envoy_ref env = refl

fixed_path :
    (env : Environ)
    → marker_path (resolve env) envoy_image.0.marker ≡ found "cilium/images/cilium-envoy-v1.37.5"
unfolding envoy_image resolve_template expand starts_with
fixed_path env = refl

-- The marker of the Envoy image names one version whatever its tag: in every environment that sets
-- the tag, the image is looked up under "cilium/images/cilium-envoy-v1.37.5", so two tags share it.
pub envoy_marker_fixed :
    (env : Environ) (tag : String)
    → lookup "HPDC_CILIUM_ENVOY_TAG" env ≡ some tag
    → (tag == "") ≡ false
    → marker_for (resolve env) envoy (envoy +++ ":" +++ tag)
      ≡ found "cilium/images/cilium-envoy-v1.37.5"
unfolding envoy_image
envoy_marker_fixed env tag set filled =
    let ref : image_ref (resolve env) envoy_image.0 ≡ some (envoy +++ ":" +++ tag) =
      rw
        (
          envoy_ref env,
          version_of-set env "HPDC_CILIUM_ENVOY_TAG" envoy_tag tag set filled,
          append_nil tag,
        )
        refl in
    marker_for-image_ref env 3 envoy_image.0 (envoy +++ ":" +++ tag) envoy_image.1 ref
    ∙ fixed_path env

-- ===== src/AppOfApps/Rendered.antt =====
-- What is in gitops/apps after a run.
use hpa_with_bmad.Base.{
  String, Bool, true, false, not, ◌&&◌, Option, none, some, List, [], ◌∷◌, lookup, has_key,
  string_eq, ◌==◌, eq_iff, if◌then◌else◌, lookup-insert, lookup-remove, ◌≡◌, refl, arith, All,
  Bool-cases, Option-cases, inl, inr,
}
use hpa_with_bmad.Versions.{Environ}
use hpa_with_bmad.AppOfApps.{
  Folder, Apps, member, is_app_enabled, is_yaml, stem, yaml_names, keep, files_of,
  bootstrap_apps_all, place, place_all, clean, render, main,
}

same_text : (s t : String) → (s == t) ≡ true → s ≡ t
same_text s t h = ground (arith, h, eq_iff s t)

if_same : (b : Bool) (o : Option String) → (if b then o else o) ≡ o
if_same b o = ground arith

lookup-keep :
    (test : String → Bool) (j : String) (folder : Folder)
    → lookup j (keep test folder) ≡ (if test j then lookup j folder else none)
unfolding keep lookup
lookup-keep test j [] = ground arith
lookup-keep test j ((name, content) ∷ folder) = elim (Bool-cases (name == j)) [
  | inl same ↦ rw (same_text name j same) (ground (arith, eq_iff j j, lookup-keep test j folder))
  | inr other ↦ ground (arith, other, lookup-keep test j folder)
]

member-yaml_names :
    (j : String) (folder : Folder) → member j (yaml_names folder) ≡ (is_yaml j && has_key j folder)
unfolding yaml_names has_key lookup
member-yaml_names j [] = ground arith
member-yaml_names j ((name, content) ∷ folder) = elim (Bool-cases (name == j)) [
  | inl same ↦ rw (same_text name j same) (ground (arith, eq_iff j j, member-yaml_names j folder))
  | inr other ↦ ground (arith, other, member-yaml_names j folder)
]

-- The file that a folder has under a name.
abbrev pub file : String → Option Folder → Option String
file name folder = lookup name (files_of folder)

module _ (env : Environ) (apps_all : Folder) where
  -- What a run makes of one application.
  abbrev pub wanted : String → Option String
  wanted name = if is_app_enabled env (stem name) then lookup name apps_all else none

  file-place :
      (name j : String) (apps : Option Folder)
      → has_key name apps_all ≡ true
      → file j (place env apps_all name apps) ≡ (if name == j then wanted name else file j apps)
  unfolding place has_key
  file-place name j apps h = elim (Bool-cases (is_app_enabled env (stem name))) [
    | inl on ↦ elim (Option-cases (lookup name apps_all)) [
      | inl absent ↦ absurd (let k = rw (absent, has_key) at h in cc)
      | inr (content, found) ↦ rw (on, found, place) (lookup-insert name j content (files_of apps))
    ]
    | inr off ↦ elim (Option-cases apps) [
      | inl e ↦ rw (off, e, place) (unfold lookup in ground arith)
      | inr (folder, e) ↦ rw (off, e, place) (lookup-remove name j folder)
    ]
  ]

  -- The same for all of them, each a file of the source folder.
  file-place_all :
      (names : List String) (j : String) (apps : Option Folder)
      → All (λ name. has_key name apps_all ≡ true) names
      → file j (place_all env apps_all names apps)
        ≡ (if member j names then wanted j else file j apps)
  unfolding place_all
  file-place_all [] j apps h = refl
  file-place_all (name ∷ names) j apps (h, hs) =
      let later = file-place_all names j (place env apps_all name apps) hs in
      let first = file-place name j apps h in
      elim (Bool-cases (name == j)) [
        | inl same ↦
            rw (place_all, later, first, same, same_text name j same)
              (if_same (member j names) (wanted j))
        | inr other ↦ rw (place_all, later, first, other) refl
      ]

  file-clean :
      (valid_names : List String) (j : String) (apps : Option Folder)
      → file j (clean valid_names apps)
        ≡ (if is_yaml j && not (member j valid_names) then none else file j apps)
  unfolding clean
  file-clean valid_names j none = unfold lookup in ground arith
  file-clean valid_names j (some folder) =
      rw (lookup-keep (λ name. not (is_yaml name && not (member name valid_names))) j folder)
        (ground arith)

  keys_known :
      (names : List String)
      → ((name : String) → member name names ≡ true → has_key name apps_all ≡ true)
      → All (λ name. has_key name apps_all ≡ true) names
  keys_known [] h = tt
  keys_known (name ∷ names) h =
      (h name (ground (arith, eq_iff name name)), keys_known names (λ n m. h n (ground (arith, m))))

  file-written :
      (j : String) (names : List String) (apps : Option Folder)
      → ((n : String) → member n names ≡ (is_yaml n && has_key n apps_all))
      → file j (clean names (place_all env apps_all names apps))
        ≡ (if is_yaml j then wanted j else file j apps)
  unfolding has_key
  file-written j names apps known =
      let sources = keys_known names (λ n m. ground (arith, m, known n)) in
      rw
        (
          file-clean names j (place_all env apps_all names apps),
          file-place_all names j apps sources,
          known j,
        )
        (ground arith)

  -- A run that writes makes gitops/apps exactly what the toggles want: it ends with 0, leaves
  -- gitops/apps.all as it is, and each YAML file of gitops/apps is then the one of gitops/apps.all if
  -- its application is enabled, and missing otherwise; no other file of gitops/apps is touched. This
  -- for a gitops/apps.all with at least one YAML file.
  pub rendered_apps :
      (s : Apps) (name : String) (names : List String)
      → s.apps_all ≡ some apps_all
      → yaml_names apps_all ≡ name ∷ names
      → ((main env false s).0 ≡ 0)
        × ((main env false s).1.apps_all ≡ some apps_all)
        × ((j : String)
            → file j (main env false s).1.apps ≡ (if is_yaml j then wanted j else file j s.apps))
  unfolding main bootstrap_apps_all render
  rendered_apps s name names there found = (
    rw (there, found) refl,
    rw (there, found) refl,
    λ j.
        rw (there, found)
          (file-written j (name ∷ names) s.apps (λ n. rw found at (member-yaml_names n apps_all))),
  )

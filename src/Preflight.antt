-- ===== src/Preflight.antt =====
-- scripts/services/image-preflight.py: which images the local docker and the offline mirror have, the
-- version gate, and what is pulled and loaded.
pub mod Actions
pub mod Loading
pub mod Gate
pub mod Tests
use hpa_with_bmad.Base.{
  ℕ, zero, suc, eqb, ltb, code, String, Bool, true, false, not, ◌&&◌, ◌||◌, Option, none, some,
  List, [], ◌∷◌, ◌++◌, Dict, lookup, insert, string_eq, ◌==◌, ◌+++◌, any, before, partition, occurs,
  text_length, strip, strip_prefix, if◌then◌else◌,
}
use hpa_with_bmad.Regex.{is_space}

-- An answer of the mirror to a list of tags: the tags, an HTTP error, a body that `json.load` or the
-- test refuses, or no answer.
pub data TagAnswer : Type 0 where
  tags : List String → TagAnswer
  http_error : TagAnswer
  garbled : TagAnswer
  unreachable : TagAnswer

-- What the script meets: the catalog's images by component, each with the path of its marker, the
-- custom images, the markers, and what docker, the mirror and talosctl answer.
pub record World : Type 0 where
  pub images : List (String × List (String × String))
  pub custom_images : List String
  pub markers : Dict String String
  pub inspected : String → Bool
  pub tags_list : String → TagAnswer
  pub docker_pull : String → Bool
  -- `docker port`, where it ends with 0
  pub docker_port : Option String
  -- `talosctl image pull` of an image, at an endpoint, ends with 0
  pub talos_pull : String → String → Bool

-- `s.rpartition(":")` of a text that has one, as `s.rsplit(":", 1)`
unfoldable pub cut_last : String → Option (String × String)
cut_last String.[] = none
cut_last (String.◌∷◌ c s) = elim (cut_last s) [
  | some (a, b) ↦ some (String.◌∷◌ c a, b)
  | none ↦ if eqb (code c) b':' then some ("", s) else none
]

-- `mirror_repo_candidates`
unfoldable pub mirror_repo_candidates : String → List String
mirror_repo_candidates image_ref =
    let repo : String = elim (cut_last (before "@" image_ref)) [
      | none ↦ ""
      | some (repo, tag) ↦ repo
    ] in
    elim (partition b'/' repo) [
      | none ↦ repo ∷ ("library/" +++ repo) ∷ []
      | some (host, path) ↦
          if not (occurs "." host) && not (occurs ":" host) && not (host == "localhost")
          then (host +++ "/" +++ path) ∷ []
          else path ∷ []
    ]

-- `image_ref.rsplit(":", 1)[-1].split("@")[0]`
unfoldable pub tag_of : String → String
tag_of image_ref =
    before "@" (elim (cut_last image_ref) [ none ↦ image_ref | some (repo, tag) ↦ tag ])

-- `s.split(" -> ")[1]`
unfoldable pub second : String → Option String
second String.[] = none
second (String.◌∷◌ c s) = elim (strip_prefix " -> " (String.◌∷◌ c s)) [
  | some rest ↦ some (before " -> " rest)
  | none ↦ second s
]

pub record ImageStatus : Type 0 where
  pub image : String
  pub component : String
  pub marker_path : String
  pub local_available : Bool
  pub cached : Bool
  -- `none` is a mirror that did not answer
  pub mirrored : Option Bool

-- What the script does to docker, the cluster and its markers, in order.
pub data Action : Type 0 where
  pull : String → Action
  load : String → Action
  mark : String → String → Action

abbrev is_nil : List String → Bool
is_nil [] = true
is_nil (_ ∷ _) = false

abbrev pub is_true : Option Bool → Bool
is_true none = false
is_true (some b) = b

module _ (world : World) where
  -- The loop of `check_mirror_tag`; `saw_mirror` is whether the mirror answered so far.
  unfoldable pub check_paths : String → Bool → List String → Option Bool
  check_paths tag saw_mirror [] = if saw_mirror then some false else none
  check_paths tag saw_mirror (path ∷ paths) = elim (world.tags_list path) [
    | tags names ↦
        let later = check_paths tag true paths in
        if any (λ n. n == tag) names then some true else later
    | http_error ↦ check_paths tag true paths
    | garbled ↦ check_paths tag true paths
    | unreachable ↦ check_paths tag saw_mirror paths
  ]

  -- `check_mirror_tag`
  unfoldable pub check_mirror_tag : String → Option Bool
  check_mirror_tag image_ref =
      check_paths (tag_of image_ref) false (mirror_repo_candidates image_ref)

  -- `marker_path.exists() and marker_path.stat().st_size > 100`
  abbrev is_cached : String → Bool
  is_cached marker_path = elim (lookup marker_path world.markers) [
    | none ↦ false
    | some text ↦ ltb 100 (text_length text)
  ]

  unfoldable pub status_of : String → String × String → ImageStatus
  status_of component (image_ref, marker_path) = record {
    image = image_ref;
    component = component;
    marker_path = marker_path;
    local_available = world.inspected image_ref;
    cached = is_cached marker_path;
    mirrored = check_mirror_tag image_ref;
  }

  abbrev statuses_of : String → List (String × String) → List ImageStatus
  statuses_of component [] = []
  statuses_of component (image ∷ images) = status_of component image ∷ statuses_of component images

  -- `check_images`; without components all are taken
  unfoldable pub check_images :
      List String → List (String × List (String × String)) → List ImageStatus
  check_images components [] = []
  check_images components ((component, image_list) ∷ images) =
      let rest = check_images components images in
      let taken = is_nil components || any (λ c. c == component) components in
      if taken then statuses_of component image_list ++ rest else rest

  abbrev pub is_custom : ImageStatus → Bool
  is_custom s = any (λ i. i == s.image) world.custom_images

  -- One round of `pull_missing`: whether it fails, and what it does.
  unfoldable pub pull_one : Bool → ImageStatus → Bool × List Action
  pull_one force s =
      if is_custom s
      then (false, [])
      else if is_true s.mirrored && not s.local_available
      then (false, mark s.marker_path s.image ∷ [])
      else if s.local_available && not force
      then (false, [])
      else if world.docker_pull s.image
      then (false, pull s.image ∷ mark s.marker_path s.image ∷ [])
      else (true, pull s.image ∷ [])

  -- One round of `load_images_to_cluster`.
  unfoldable pub load_one : String → ImageStatus → Bool × List Action
  load_one endpoint s =
      if not s.local_available
      then (false, [])
      else if world.talos_pull s.image endpoint
      then (false, load s.image ∷ mark s.marker_path s.image ∷ [])
      else (true, load s.image ∷ [])

  -- A loop that counts the failures of its rounds.
  unfoldable pub count : (ImageStatus → Bool × List Action) → List ImageStatus → ℕ × List Action
  count one [] = (0, [])
  count one (s ∷ rest) =
      let (failures, actions) = count one rest in
      let (failed, done) = one s in (if failed then suc failures else failures, done ++ actions)

  -- `pull_missing`
  abbrev pub pull_missing : Bool → List ImageStatus → ℕ × List Action
  pull_missing force statuses = count (pull_one force) statuses

  -- `result.stdout.strip().split(" -> ")[1] if " -> " in result.stdout else ""`; `none` is the
  -- IndexError of an arrow that the strip takes away
  unfoldable pub endpoint_in : String → Option String
  endpoint_in stdout = if occurs " -> " stdout then second (strip is_space stdout) else some ""

  abbrev pub length : List ImageStatus → ℕ
  length [] = 0
  length (_ ∷ rest) = suc (length rest)

  -- `load_images_to_cluster` once the endpoint is read; `none` is the exception of `endpoint_in`
  unfoldable pub load_at : List ImageStatus → Option String → Option (ℕ × List Action)
  load_at statuses none = none
  load_at statuses (some endpoint) =
      some (if endpoint == "" then (length statuses, []) else count (load_one endpoint) statuses)

  -- `load_images_to_cluster` for what `docker port` answers.
  unfoldable pub load_from : List ImageStatus → Option String → Option (ℕ × List Action)
  load_from statuses none = some (length statuses, [])
  load_from statuses (some stdout) = load_at statuses (endpoint_in stdout)

  -- `load_images_to_cluster`
  unfoldable pub load_images_to_cluster : List ImageStatus → Option (ℕ × List Action)
  load_images_to_cluster statuses = load_from statuses world.docker_port

  -- An image that the gate blocks.
  unfoldable pub is_blocked : ImageStatus → Bool
  is_blocked s = elim s.mirrored [ none ↦ false | some m ↦ not m && not (is_custom s) ]

-- The arguments.
pub record Options : Type 0 where
  pub check : Bool
  pub pull_asked : Bool
  pub load_asked : Bool
  pub components : List String
  pub force : Bool

-- `args.check`, as `main` fills it in
abbrev pub checks : Options → Bool
checks args = args.check || (not args.pull_asked && not args.load_asked)

abbrev code_of : ℕ → ℕ → ℕ
code_of zero later = later
code_of (suc _) later = 1

-- The end of `main` after the loading. An exception ends the program with status 1.
unfoldable pub after_load : ℕ → List Action → Option (ℕ × List Action) → ℕ × List Action
after_load exit_code done none = (1, done)
after_load exit_code done (some (failures, actions)) = (code_of failures exit_code, done ++ actions)

module _ (world : World) where
  -- `main` from the loading on, for the exit code and the actions so far.
  unfoldable pub load_stage : Bool → List ImageStatus → ℕ → List Action → ℕ × List Action
  load_stage false statuses exit_code done = (exit_code, done)
  load_stage true statuses exit_code done =
      after_load exit_code done (load_images_to_cluster world statuses)

  -- `main` once the pulls were made.
  unfoldable pub after_pulls : Bool → List ImageStatus → ℕ → ℕ × List Action → ℕ × List Action
  after_pulls asked statuses exit_code (zero, actions) = load_stage asked statuses exit_code actions
  after_pulls asked statuses exit_code (suc _, actions) = (1, actions)

  -- `main` from the pulls on, for whether they are asked for.
  unfoldable pub pull_stage : Bool → Options → List ImageStatus → ℕ → ℕ × List Action
  pull_stage false args statuses exit_code = load_stage args.load_asked statuses exit_code []
  pull_stage true args statuses exit_code =
      after_pulls args.load_asked statuses exit_code (pull_missing world args.force statuses)

  -- `main`; what it prints is left out
  unfoldable pub main : Options → ℕ × List Action
  main args =
      let statuses = check_images world args.components world.images in
      pull_stage args.pull_asked args statuses
        (if checks args && any (is_blocked world) statuses then 1 else 0)

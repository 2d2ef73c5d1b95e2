-- ===== src/Preflight/Tests.antt =====
-- Runs of the image preflight, and its theorem at concrete inputs.
use hpa_with_bmad.Base.{
  true, false, some, [], ◌∷◌, string_eq, ◌==◌, lookup, before, partition, occurs, starts_with,
  strip_prefix, ◌+++◌, strip, lstrip, rstrip, All, if◌then◌else◌, ◌≡◌, ◌↔◌, refl,
}
use hpa_with_bmad.Preflight.{
  World, pull, mark, Options, checks, tags, http_error, cut_last, tag_of, mirror_repo_candidates,
  check_paths, check_mirror_tag, status_of, check_images, pull_one, load_one, count, second,
  endpoint_in, load_at, load_from, load_images_to_cluster, after_load, load_stage, after_pulls,
  pull_stage, main,
}
use hpa_with_bmad.Preflight.Gate.{Passes, Obtained, gate_outcome}
use hpa_with_bmad.Preflight.Loading.{AllLoaded}
use hpa_with_bmad.Preflight.Actions.{Allowed}

abbrev world : World
world = record {
  images = ("db", ("docker.io/library/redis:7", "redis.txt") ∷ []) ∷ [];
  custom_images = [];
  markers = [];
  inspected = λ image. false;
  tags_list = λ path. if path == "library/redis" then http_error else tags ("7" ∷ []);
  docker_pull = λ image. true;
  docker_port = some "50000/tcp -> 0.0.0.0:32768";
  talos_pull = λ image endpoint. true;
}

abbrev pull_and_load : Options
pull_and_load = record {
  check = false;
  pull_asked = true;
  load_asked = true;
  components = [];
  force = false;
}

candidates : mirror_repo_candidates "redis:7.4-alpine" ≡ "redis" ∷ "library/redis" ∷ []
unfolding mirror_repo_candidates cut_last partition before starts_with strip_prefix ◌+++◌
candidates = refl

tag_read : tag_of "quay.io/argoproj/argocd:v1" ≡ "v1"
unfolding tag_of cut_last before starts_with strip_prefix
tag_read = refl

-- An image that the run itself pulled counts as absent when it loads.
pulled_not_loaded :
    main world pull_and_load
    ≡ (0, pull "docker.io/library/redis:7" ∷ mark "redis.txt" "docker.io/library/redis:7" ∷ [])
unfolding main check_images status_of check_mirror_tag check_paths tag_of mirror_repo_candidates
    cut_last partition before starts_with strip_prefix ◌+++◌ occurs lookup pull_stage after_pulls
    count pull_one load_stage load_images_to_cluster load_from endpoint_in second strip lstrip
    rstrip load_at load_one after_load
pulled_not_loaded = refl

gate_outcome_example :
    (((main world pull_and_load).0 ≡ 0) ↔ (
      (checks pull_and_load ≡ true → All (Passes world) (check_images world [] world.images))
      × (true ≡ true → All (Obtained world pull_and_load) (check_images world [] world.images))
      × (true ≡ true → AllLoaded world (check_images world [] world.images))))
    × All
        (Allowed world pull_and_load (check_images world [] world.images))
        (main world pull_and_load).1
gate_outcome_example = gate_outcome world pull_and_load

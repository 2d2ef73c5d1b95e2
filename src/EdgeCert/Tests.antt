-- ===== src/EdgeCert/Tests.antt =====
-- Runs on a cluster that answers as kubectl does, and the theorems at concrete inputs.
use hpa_with_bmad.Base.{
  ℕ, pos, String, true, false, Option, none, some, List, [], ◌∷◌, string_eq, ◌==◌, any,
  if◌then◌else◌, ◌≡◌, ◌⊎◌, refl, arith, occurs, strip, strip_prefix, lstrip, rstrip, starts_with,
  lookup, ap,
}
use hpa_with_bmad.Json.{str, obj, field, end}
use hpa_with_bmad.Regex.{after}
use hpa_with_bmad.EdgeCert.{
  Answer, Disk, Tools, readable, same_pair, validate_cert_pair, cert_state, judge_generated,
  generate_in, generate_cert, is_ok,
}
use hpa_with_bmad.EdgeCert.Cluster.{
  get_secret_json, secret_cert, cluster_cert, same_modulus, moduli, matches_disk,
  has_kubectl_cluster, create_namespace, ensure_namespace, secret_exists, secret_matches_disk,
  create_secret, refresh_secret, ensure_secret, ensure_all, deploy,
}
use hpa_with_bmad.EdgeCert.Modes.{
  apply_mode, validate_text, assigns, prep, deploy_from, after_generation, apply_for, apply, main,
}
use hpa_with_bmad.EdgeCert.Outcome.{HasValid, IsSafe, main-IsSafe}
use hpa_with_bmad.EdgeCert.Secret.{applied_secret}

-- The cluster is its secret.
abbrev Secret : Type 0
Secret = Option (String × String)

abbrev said : String → Answer
said text = record { code = pos 0; stdout = text; stderr = "" }

abbrev refused : Answer
refused = record { code = pos 1; stdout = ""; stderr = "NotFound" }

abbrev shown : List String → Secret → Answer
shown words none = if any (λ w. w == "secret") words then refused else said ""
shown words (some (cert, key)) = said cert

abbrev pair : Option String → Option String → Secret
pair (some cert) (some key) = some (cert, key)
pair (some cert) none = none
pair none key = none

abbrev kubectl : Disk → List String → Secret → Option Answer × Secret
kubectl disk [] secret = (some refused, secret)
kubectl disk (verb ∷ words) secret =
    if verb == "get"
    then (some (shown words secret), secret)
    else if verb == "create"
    then (some (said "created"), pair disk.cert disk.key)
    else (some (said "deleted"), none)

abbrev tools : Tools Secret
tools = record {
  cert_path = "tls.crt";
  key_path = "tls.key";
  which = λ name. true;
  provisioned = true;
  manifest =
      readable
        "namespace: envoy-gateway-system protocol: HTTPS certificateRefs: name: 'hpdc-edge-tls'";
  openssl = λ words disk. some (said "CN=*.hpdc.local DNS:*.hpdc.local");
  req = λ words disk. (some (said ""), record { cert = some "CERT"; key = some "KEY" });
  mkdir = some true;
  chmod = true;
  kubectl = kubectl;
  json_loads = λ text. some (obj (field "data" (obj (field "tls.crt" (str text) end)) end));
  b64decode = λ text. some text;
}

abbrev no_files : Disk
no_files = record { cert = none; key = none }

first_apply :
    main tools (apply_mode false) no_files none
    ≡ (0, record { cert = some "CERT"; key = some "KEY" }, some ("CERT", "KEY"))
unfolding main apply apply_for prep validate_text assigns occurs strip_prefix starts_with after
    cert_state generate_cert generate_in judge_generated validate_cert_pair same_pair strip lstrip
    rstrip after_generation deploy_from deploy has_kubectl_cluster ensure_all ensure_namespace
    create_namespace ensure_secret secret_exists create_secret
first_apply = refl

abbrev other_key : Disk
other_key = record { cert = some "CERT"; key = some "NEW" }

-- Where openssl answers with one modulus, a key that differs from the cluster's is not noticed.
stale_key :
    main tools (apply_mode false) other_key (some ("CERT", "OLD"))
    ≡ (0, other_key, some ("CERT", "OLD"))
unfolding main apply apply_for prep validate_text assigns occurs strip_prefix starts_with after
    cert_state validate_cert_pair same_pair strip lstrip rstrip deploy_from deploy
    has_kubectl_cluster ensure_all ensure_namespace create_namespace ensure_secret secret_exists
    refresh_secret secret_matches_disk matches_disk cluster_cert secret_cert lookup moduli
    same_modulus
stale_key = refl

main-IsSafe_example :
    IsSafe tools (apply_mode false) no_files none (main tools (apply_mode false) no_files none)
main-IsSafe_example = main-IsSafe tools (apply_mode false) no_files none

pair_lem :
    (a b : Option String) (cert key : String)
    → a ≡ some cert
    → b ≡ some key
    → pair a b ≡ some (cert, key)
pair_lem (some a) (some b) cert key p q = cc
pair_lem (some a) none cert key p q = absurd (cc)
pair_lem none b cert key p q = absurd (cc)

shown_lem :
    (secret : Secret) (answer : Answer) (cert : String)
    → (kubectl no_files get_secret_json secret).0 ≡ some answer
    → is_ok answer ≡ true
    → cluster_cert tools answer.stdout ≡ some (some cert)
    → (key : String) × (secret ≡ some (cert, key))
unfolding cluster_cert secret_cert lookup
shown_lem none answer cert h ok held = absurd (ground (arith, h, ok))
shown_lem (some (c, k)) answer cert h ok held = (k, ground (arith, h, held))

abbrev applied : ℕ × Disk × Secret
applied = main tools (apply_mode false) no_files none

applied_secret_example :
    HasValid tools applied.1
    × ((cert : String) × (key : String) × (k : String) × (applied.1.cert ≡ some cert)
        × (applied.1.key ≡ some key)
        × (applied.2 ≡ some (cert, k))
        × ((k ≡ key) ⊎ (moduli tools applied.1 ≡ some true)))
applied_secret_example =
    applied_secret tools (λ (s : Secret). s) (λ disk words cluster. refl)
      (λ disk cluster answer cert key e ok c k. pair_lem disk.cert disk.key cert key c k)
      (λ disk cluster answer cert e ok held. shown_lem cluster answer cert e ok held) false no_files
      none (ap (λ (r : ℕ × Disk × Secret). r.0) first_apply)

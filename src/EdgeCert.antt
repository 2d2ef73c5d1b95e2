-- ===== src/EdgeCert.antt =====
-- scripts/gitops/gen-edge-cert.py: the certificate of the edge on disk. The commands that it runs, and
-- what the file system answers, are the fields of `Tools`.
pub mod Cluster
pub mod Modes
pub mod Outcome
pub mod Secret
pub mod Tests
use hpa_with_bmad.Base.{
  ℕ, ℤ, pos, eqb_ℤ, String, Bool, true, false, not, ◌&&◌, ◌||◌, Option, none, some, List, [], ◌∷◌,
  ◌++◌, string_eq, ◌==◌, ◌+++◌, occurs, starts_with, strip, strip_prefix, if◌then◌else◌,
}
use hpa_with_bmad.Json.{Value}
use hpa_with_bmad.Regex.{is_space, after}

-- `CompletedProcess`
pub record Answer : Type 0 where
  pub code : ℤ
  pub stdout : String
  pub stderr : String

-- The folder of the certificate: tls.crt and tls.key, each the text that `read_text` gives.
pub record Disk : Type 0 where
  pub cert : Option String
  pub key : Option String

-- The manifest that consumes the secret.
pub data Manifest : Type 0 where
  absent : Manifest
  unreadable : String → Manifest
  readable : String → Manifest

-- What the script calls. The answer `none` is an exception, such as a timeout; a command that only
-- reads leaves no new state.
pub record Tools (Cluster : Type 0) : Type 0 where
  pub cert_path : String
  pub key_path : String
  pub which : String → Bool
  -- `require("envoy-gateway")` does not raise
  pub provisioned : Bool
  pub manifest : Manifest
  -- `openssl x509` and `openssl pkey`
  pub openssl : List String → Disk → Option Answer
  -- `openssl req -x509`
  pub req : List String → Disk → Option Answer × Disk
  -- `CERT_DIR.mkdir`: `some false` is one of the two exceptions that are caught
  pub mkdir : Option Bool
  -- `KEY_PATH.chmod` does not raise
  pub chmod : Bool
  pub kubectl : Disk → List String → Cluster → Option Answer × Cluster
  -- `json.loads`, `none` for JSONDecodeError
  pub json_loads : String → Option Value
  -- `base64.b64decode(...).decode("utf-8")`, `none` for an exception
  pub b64decode : String → Option String

abbrev pub is_ok : Answer → Bool
is_ok a = eqb_ℤ a.code (pos 0)

abbrev pub stripped : String → String
stripped s = strip is_space s

infixl 5 ◌>>=◌
abbrev ◌>>=◌ : {A B : Type 0} → Option A → (A → Option B) → Option B
none >>= f = none
some a >>= f = f a

abbrev has_file : Option String → Bool
has_file none = false
has_file (some _) = true

-- `_cert_present`
abbrev pub cert_present : Disk → Bool
cert_present disk = has_file disk.cert && has_file disk.key

-- `stat().st_size == 0`
abbrev is_empty : Option String → Bool
is_empty none = true
is_empty (some s) = s == ""

-- `_cert_state`'s first part
pub data CertState : Type 0 where
  valid : CertState
  missing : CertState
  invalid : CertState

module _ {Cluster : Type 0} (tools : Tools Cluster) where
  -- The tools of which `_check_tools` complains.
  abbrev missing_tools : List String → List String
  missing_tools [] = []
  missing_tools (tool ∷ names) =
      let rest = missing_tools names in
      if tools.which tool then rest else ("required tool not found on PATH: " +++ tool) ∷ rest

  abbrev pub check_tools : List String
  check_tools = missing_tools ("openssl" ∷ "kubectl" ∷ [])

  abbrev x509 : List String → Disk → Option Answer
  x509 words disk = tools.openssl ("x509" ∷ "-in" ∷ tools.cert_path ∷ words) disk

  -- The last test of `_validate_cert_pair`, on the two public keys.
  unfoldable pub same_pair : Answer → Answer → Bool × String
  same_pair cert_pub key_pub =
      if not (is_ok cert_pub) || not (is_ok key_pub)
      then (false, "could not extract public key from cert or key")
      else if stripped cert_pub.stdout == stripped key_pub.stdout
      then (true, "ok")
      else (false, "certificate and key do not match")

  -- `_validate_cert_pair`
  unfoldable pub validate_cert_pair : Disk → Option (Bool × String)
  validate_cert_pair disk = do
    expiry ← x509 ("-checkend" ∷ "0" ∷ "-noout" ∷ []) disk
    if not (is_ok expiry) then some (false, "certificate is expired or unreadable") else do
      subject ← x509 ("-noout" ∷ "-subject" ∷ []) disk
      if not (is_ok subject) || not (occurs "*.hpdc.local" subject.stdout)
          then some (false, "certificate subject missing CN=*.hpdc.local")
          else do
            san ← x509 ("-noout" ∷ "-ext" ∷ "subjectAltName" ∷ []) disk
            if not (is_ok san) || not (occurs "DNS:*.hpdc.local" san.stdout)
                then some (false, "certificate SAN missing DNS:*.hpdc.local")
                else do
                  cert_pub ← x509 ("-pubkey" ∷ "-noout" ∷ []) disk
                  key_pub ← tools.openssl ("pkey" ∷ "-in" ∷ tools.key_path ∷ "-pubout" ∷ []) disk
                  some (same_pair cert_pub key_pub)

  -- `_cert_state`, with the reason of a pair that is not valid
  unfoldable pub cert_state : Disk → Option (CertState × String)
  cert_state disk =
      if not (cert_present disk)
      then some (missing, "cert/key not found")
      else elim (validate_cert_pair disk) [
        | none ↦ none
        | some (ok, reason) ↦
            some (if ok then (valid, "cert already present") else (invalid, reason))
      ]

  abbrev req_words : List String
  req_words =
      "-newkey" ∷ "rsa:2048" ∷ "-keyout" ∷ tools.key_path ∷ "-out" ∷ tools.cert_path ∷ "-days"
      ∷ "3650" ∷ "-nodes" ∷ "-subj" ∷ "/CN=*.hpdc.local" ∷ "-addext"
      ∷ "subjectAltName=DNS:*.hpdc.local" ∷ []

  -- `_generate_cert` after openssl, whose answer this judges.
  unfoldable pub judge_generated : Option Answer → Disk → Option ℕ
  judge_generated none disk = none
  judge_generated (some answer) disk =
      if not (is_ok answer)
      then some 1
      else if not (cert_present disk)
      then some 1
      else if is_empty disk.cert || is_empty disk.key
      then some 1
      else elim (validate_cert_pair disk) [
        | none ↦ none
        | some (ok, reason) ↦ if not ok then some 1 else if tools.chmod then some 0 else none
      ]

  -- `_generate_cert` after `mkdir`, whose outcome this takes.
  unfoldable pub generate_in : Option Bool → Disk → Option ℕ × Disk
  generate_in none disk = (none, disk)
  generate_in (some false) disk = (some 1, disk)
  generate_in (some true) disk =
      let (answer, generated) = tools.req req_words disk in
      (judge_generated answer generated, generated)

  -- `_generate_cert`
  unfoldable pub generate_cert : Disk → Option ℕ × Disk
  generate_cert disk = generate_in tools.mkdir disk

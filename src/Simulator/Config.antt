-- ===== src/Simulator/Config.antt =====
-- The checks on a configuration, and the resolution of its API key.
use hpa_with_bmad.Base.{
  pos, leb_ℤ, String, Bool, true, false, Option, none, some, List, [], ◌∷◌, Dict, lookup, string_eq,
  ◌==◌, ◌&&◌, not, if◌then◌else◌, strip_prefix, strip_suffix,
}
use hpa_with_bmad.Simulator.{
  Failure, config_error, crash, Result, ok, failed, ProtocolTarget, SimulatorConfig, enabled_of,
}

-- `not s`, where `s` may be None
abbrev pub blank : Option String → Bool
blank none = true
blank (some s) = s == ""

abbrev pub is_empty {ℓ} : {A : Type ℓ} → List A → Bool
is_empty [] = true
is_empty (_ ∷ _) = false

-- The rest of `validate_config`, for three targets that are there.
unfoldable pub check_targets :
    ProtocolTarget → ProtocolTarget → ProtocolTarget → List String → Option Failure
check_targets http mqtt grpc enabled =
    if http.enabled && blank http.url
    then some (config_error "protocol_targets.http.url is required when HTTP is enabled")
    else if mqtt.enabled && blank mqtt.broker
    then some (config_error "protocol_targets.mqtt.broker is required when MQTT is enabled")
    else if mqtt.enabled && blank mqtt.topic
    then some (config_error "protocol_targets.mqtt.topic is required when MQTT is enabled")
    else if grpc.enabled && blank grpc.endpoint
    then some (config_error "protocol_targets.grpc.endpoint is required when gRPC is enabled")
    else if is_empty enabled
    then some (config_error "at least one protocol must be enabled")
    else none

-- The targets are a mapping with the three names, as `load_config` and `default_config` build it; a
-- name that it lacks is a KeyError.
unfoldable pub find_targets : SimulatorConfig → Option Failure
find_targets config = elim (lookup "http" config.protocol_targets) [
  | none ↦ some crash
  | some http ↦ elim (lookup "mqtt" config.protocol_targets) [
    | none ↦ some crash
    | some mqtt ↦ elim (lookup "grpc" config.protocol_targets) [
      | none ↦ some crash
      | some grpc ↦ check_targets http mqtt grpc (enabled_of config.protocol_targets)
    ]
  ]
]

-- `validate_config`
unfoldable pub validate_config : SimulatorConfig → Option Failure
validate_config config =
    if leb_ℤ config.device_count (pos 0)
    then some (config_error "device_count must be >= 1")
    else if leb_ℤ config.message_rate (pos 0)
    then some (config_error "message_rate must be >= 1")
    else if is_empty config.device_types
    then some (config_error "device_types must contain at least one device type")
    else if is_empty config.region_ids
    then some (config_error "region_ids must contain at least one region id")
    else if leb_ℤ config.payload_size_limit_bytes (pos 0)
    then some (config_error "payload_size_limit_bytes must be > 0")
    else find_targets config

-- The value of a variable that must be set.
unfoldable pub required : Dict String String → String → Result String
required environ name = elim (lookup name environ) [
  | none ↦ failed (config_error "cannot resolve api_key")
  | some value ↦ if value == "" then failed (config_error "cannot resolve api_key") else ok value
]

-- `api_key[2:-1]`, for a key of the form `${...}`
abbrev pub interpolated : String → Option String
interpolated api_key = elim (strip_prefix "${" api_key) [
  | none ↦ none
  | some rest ↦ strip_suffix "}" rest
]

-- `resolve_configured_api_key`, in the given environment; the messages are without the name.
unfoldable pub resolve_configured_api_key : Dict String String → String → String → Result String
resolve_configured_api_key environ api_key api_key_env = elim (interpolated api_key) [
  | some name ↦
      if name == ""
      then failed
          (config_error "api_key_env is required when api_key uses environment interpolation")
      else required environ name
  | none ↦
      if api_key == "" && not (api_key_env == "") then required environ api_key_env else ok api_key
]

-- ===== src/Simulator/Emit.antt =====
-- One message to one target. What the network answers is a parameter that may depend on the message,
-- so that each attempt has an answer of its own.
use hpa_with_bmad.Base.{
  ℕ, ℤ, leb, eqb, eqb_ℤ, pos, String, code, Bool, Option, none, some, Dict, [], ◌∷◌, string_eq,
  ◌==◌, ◌||◌, not, if◌then◌else◌, ◌+++◌, insert,
}
use hpa_with_bmad.Json.{Value, str}
use hpa_with_bmad.Json.Number.{int_of_text}
use hpa_with_bmad.Simulator.{ProtocolTarget, TelemetryEnvelope, to_dict}
use hpa_with_bmad.Simulator.Config.{blank}

-- What urlopen does: an answer with its status after a time, HTTPError, URLError or another OSError, or
-- an exception that is none of these.
pub data HttpReply : Type 0 where
  answered : ℕ → ℕ → HttpReply
  http_error : ℕ → HttpReply
  unreachable : HttpReply
  broken : HttpReply

-- What paho does from the connection to the end of the wait: a return code after a time, or an
-- exception.
pub data MqttReply : Type 0 where
  published : ℤ → ℕ → MqttReply
  lost : MqttReply

-- What the call of the gRPC channel does.
pub data GrpcReply : Type 0 where
  returned : ℕ → GrpcReply
  rpc_error : GrpcReply
  other_error : GrpcReply

-- How an emission ends: with a latency, without one, with TelemetryConnectionError or
-- TelemetryProtocolError, or with another exception.
pub data Emission : Type 0 where
  sent : ℕ → Emission
  idle : Emission
  connection_failure : Emission
  protocol_failure : Emission
  uncaught : Emission

pub record Network : Type 0 where
  pub urlopen : String → String → TelemetryEnvelope → HttpReply
  -- `none`: the package is not installed
  pub paho : Option (String → ℤ → String → TelemetryEnvelope → MqttReply)
  pub grpc : Option (String → String → Dict String String → GrpcReply)
  -- `str(v)` of a value that is no text
  pub show : Value → String

abbrev or_text : Option String → String → String
or_text none t = t
or_text (some s) t = if s == "" then t else s

abbrev or_nothing : Option String → String
or_nothing none = ""
or_nothing (some s) = s

unfoldable pub emit_http : Network → TelemetryEnvelope → ProtocolTarget → String → Emission
emit_http network e target api_key =
    if blank target.url
    then protocol_failure
    else elim (network.urlopen (or_nothing target.url) api_key e) [
      | answered status ms ↦ if leb 400 status then protocol_failure else sent ms
      | http_error _ ↦ protocol_failure
      | unreachable ↦ connection_failure
      | broken ↦ uncaught
    ]

-- `s.rsplit(":", 1)` into two parts
unfoldable pub split_last : String → Option (String × String)
split_last String.[] = none
split_last (String.◌∷◌ c s) = elim (split_last s) [
  | some (a, b) ↦ some (String.◌∷◌ c a, b)
  | none ↦ if eqb (code c) b':' then some ("", s) else none
]

abbrev pub host_port : String → Option (String × ℤ)
host_port broker = elim (split_last broker) [
  | none ↦ none
  | some (host, port_text) ↦ elim (int_of_text port_text) [
    | none ↦ none
    | some port ↦ some (host, port)
  ]
]

-- What paho's answer makes of the emission: `MQTT_ERR_SUCCESS` is 0.
abbrev pub mqtt_end : MqttReply → Emission
mqtt_end lost = connection_failure
mqtt_end (published rc ms) = if eqb_ℤ rc (pos 0) then sent ms else protocol_failure

unfoldable pub emit_mqtt : Network → TelemetryEnvelope → ProtocolTarget → Emission
emit_mqtt network e target = elim network.paho [
  | none ↦ protocol_failure
  | some client ↦
      if blank target.broker || blank target.topic
      then protocol_failure
      else elim (host_port (or_nothing target.broker)) [
        | none ↦ protocol_failure
        | some (host, port) ↦ mqtt_end (client host port (or_nothing target.topic) e)
      ]
]

-- The text that a field of the message is set to: `value.encode("utf-8")` for the field of type bytes,
-- which is `payload`, and `str(value)` for the others. `none` is the AttributeError of a value that has
-- no `encode`.
abbrev pub field_text : (Value → String) → String → Value → Option String
field_text show name (str s) = some s
field_text show name v = if name == "payload" then none else some (show v)

unfoldable pub set_fields :
    (Value → String) → Dict String Value → Dict String String → Option (Dict String String)
set_fields show [] message = some message
set_fields show ((name, v) ∷ d) message = elim (field_text show name v) [
  | none ↦ none
  | some text ↦ set_fields show d (insert name text message)
]

abbrev pub grpc_end : GrpcReply → Emission
grpc_end (returned ms) = sent ms
grpc_end rpc_error = protocol_failure
grpc_end other_error = connection_failure

unfoldable pub emit_grpc : Network → TelemetryEnvelope → ProtocolTarget → Emission
emit_grpc network e target = elim network.grpc [
  | none ↦ protocol_failure
  | some call ↦
      if blank target.endpoint
      then protocol_failure
      else elim (set_fields network.show (to_dict e) []) [
        | none ↦ uncaught
        | some message ↦
            let service = or_text target.service "hpdc.telemetry.v1.TelemetryService" in
            grpc_end (
              call (or_nothing target.endpoint)
                (or_text target.method ("/" +++ service +++ "/PublishTelemetry")) message)
      ]
]

unfoldable pub emit_protocol :
    Network → TelemetryEnvelope → String → ProtocolTarget → Bool → String → Emission
emit_protocol network e protocol target live api_key =
    if not live
    then idle
    else if protocol == "http"
    then emit_http network e target api_key
    else if protocol == "mqtt"
    then emit_mqtt network e target
    else if protocol == "grpc"
    then emit_grpc network e target
    else protocol_failure

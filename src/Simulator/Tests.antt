-- ===== src/Simulator/Tests.antt =====
-- Runs of the simulator, and its theorems at concrete inputs.
use hpa_with_bmad.Base.{
  ℕ, zero, suc, ◌+◌, ℤ, pos, pos_part, ltb_ℤ, text_length, Bool, not, subst, Option, arith, some,
  String, true, false, none, some, [], ◌∷◌, Dict, lookup, has_key, string_eq, strip_prefix,
  strip_suffix, ◌+++◌, decimal, length, ◌≡◌, ◌≢◌, ◌⊎◌, refl,
}
use hpa_with_bmad.Json.{
  Value, Fields, Items, from_entries, null, bool, num, str, arr, obj, nil, cons, end, field, object,
}
use hpa_with_bmad.Simulator.{ok, to_dict, ProtocolTarget, SimulatorConfig, TelemetryEnvelope}
use hpa_with_bmad.Simulator.Config.{
  validate_config, find_targets, check_targets, resolve_configured_api_key, required,
}
use hpa_with_bmad.Simulator.Envelope.{validate_common_envelope}
use hpa_with_bmad.Simulator.Generate.{
  generate_envelopes, generate_from, envelope_at, generate_envelope, generate_payload,
  unit_for_metric, underscored,
}
use hpa_with_bmad.Simulator.Generated.{AreMessages, generate_envelopes-AreMessages}
use hpa_with_bmad.Simulator.Emit.{
  Network, answered, published, returned, emit_protocol, emit_http, emit_grpc, set_fields,
}
use hpa_with_bmad.Simulator.Run.{
  RunMetrics, RunEnd, run_simulation, emit_all, emit_each, attempt, to_summary, main, code, raised,
}
use hpa_with_bmad.Simulator.Completion.{IsCompleted, IsAborted, run_outcome}
use hpa_with_bmad.Simulator.Grpc.{grpc_never_completes}
use hpa_with_bmad.Simulator.DryRun.{Fits, planned, dry_run_completes}

abbrev moment : ℕ → String
moment n = "1970-01-01T00:00:00Z"

abbrev drawn : ℤ → Value
drawn _ = num (pos 63943)

abbrev drawn_int : ℤ → ℕ → ℕ → Value
drawn_int _ low _ = num (pos low)

-- The characters of a document without spaces, with room for a sign of each number.
abbrev mutual
  weight : Value → ℕ
  weight null = 4
  weight (bool _) = 5
  weight (num n) = text_length (decimal (pos_part n)) + 1
  weight (str s) = text_length s + 2
  weight (arr vs) = items_weight vs + 2
  weight (obj fs) = fields_weight fs + 2

  items_weight : Items → ℕ
  items_weight nil = 0
  items_weight (cons v vs) = weight v + 1 + items_weight vs

  fields_weight : Fields → ℕ
  fields_weight end = 0
  fields_weight (field k v fs) = text_length k + 4 + weight v + fields_weight fs

abbrev size : Dict String Value → ℕ
size d = weight (object d)

abbrev lan : Network
lan = record {
  urlopen = λ url key e. answered 202 3;
  paho = some (λ host port topic e. published (pos 0) 2);
  grpc = some (λ endpoint method message. returned 1);
  show = λ v. "{}";
}

abbrev no_target : ProtocolTarget
no_target = record {
  enabled = false;
  url = none;
  broker = none;
  topic = none;
  endpoint = none;
  service = none;
  method = none;
}

abbrev http_target : ProtocolTarget
http_target = record no_target { enabled = true; url = some "http://localhost:8080/telemetry" }

abbrev grpc_target : ProtocolTarget
grpc_target = record no_target { enabled = true; endpoint = some "localhost:50051" }

abbrev config : SimulatorConfig
config = record {
  device_count = pos 2;
  message_rate = pos 3;
  device_types = "sensor" ∷ "gateway" ∷ [];
  region_ids = "us-east-1" ∷ [];
  protocol_targets = ("http", http_target) ∷ ("mqtt", no_target) ∷ ("grpc", no_target) ∷ [];
  api_key = "k";
  seed = pos 42;
  payload_size_limit_bytes = pos 65536;
}

abbrev with_grpc : SimulatorConfig
with_grpc = record config {
  protocol_targets = ("http", http_target) ∷ ("mqtt", no_target) ∷ ("grpc", grpc_target) ∷ [];
}

valid : validate_config config ≡ none
unfolding validate_config find_targets check_targets lookup
valid = refl

exits :
    (main moment drawn drawn_int size lan (some (λ _. ok config)) false true false ≡ code 0)
    × (main moment drawn drawn_int size lan (some (λ _. ok with_grpc)) false true false ≡ raised)
    × (main moment drawn drawn_int size lan none false true false ≡ code 2)
unfolding main run_simulation validate_config find_targets check_targets generate_envelopes
    generate_from envelope_at generate_payload generate_envelope unit_for_metric underscored
    validate_common_envelope emit_all emit_each attempt to_summary lookup has_key ◌+++◌ decimal
    emit_protocol emit_http emit_grpc set_fields
exits = (refl, refl, refl)

unset_key :
    (resolve_configured_api_key (("KEY", "s") ∷ []) "${KEY}" "" ≡ ok "s")
    × (resolve_configured_api_key [] "plain" "" ≡ ok "plain")
unfolding resolve_configured_api_key required lookup strip_prefix strip_suffix ◌+++◌
unset_key = (refl, refl)

abbrev live_run : SimulatorConfig → RunEnd
live_run c = run_simulation moment drawn drawn_int size lan c "apply"

run_outcome_example : IsCompleted config "apply" (live_run config) ⊎ IsAborted (live_run config)
run_outcome_example = run_outcome moment drawn drawn_int size lan config "apply"

abbrev payload_of : String → ℕ → String → String → Fields
payload_of device_type index metric unit = from_entries (
    ("device_index", num (pos index))
    ∷ ("device_type", str device_type)
    ∷ ("region_id", str "us-east-1")
    ∷ ("sequence", num (pos 0))
    ∷ ("metric", str metric)
    ∷ ("value", drawn (pos 42))
    ∷ ("unit", str unit)
    ∷ ("generated_at", str (moment 0))
    ∷ [])

abbrev first_message : TelemetryEnvelope
first_message = record {
  device_id = "sensor-us_east_1-00000";
  device_type = "sensor";
  event_type = "telemetry.sample";
  timestamp = moment 0;
  payload = payload_of "sensor" 0 "temperature" "unitless";
  region_id = "us-east-1";
  origin = "iot-device-simulator";
  idempotency_key = "sensor-us_east_1-00000:0";
}

abbrev one_message : SimulatorConfig
one_message = record config { message_rate = pos 1 }

made : generate_envelopes moment drawn drawn_int size one_message ≡ ok (first_message ∷ [])
unfolding generate_envelopes generate_from envelope_at generate_payload generate_envelope
    unit_for_metric underscored validate_common_envelope lookup has_key ◌+++◌ decimal
made = refl

generate_envelopes-AreMessages_example :
    (length (first_message ∷ []) ≡ 1)
    × AreMessages moment drawn drawn_int size one_message 0 (first_message ∷ [])
generate_envelopes-AreMessages_example =
    generate_envelopes-AreMessages moment drawn drawn_int size one_message (first_message ∷ []) made

abbrev completed_metrics : RunMetrics
completed_metrics = record {
  mode = "apply";
  target_rps = pos 3;
  messages_generated = 3;
  device_count = pos 2;
  region_count = 1;
  message_rate = pos 3;
  protocol_results = [];
}

grpc_never_completes_example : (live_run with_grpc).outcome ≢ ok completed_metrics
grpc_never_completes_example =
    grpc_never_completes moment drawn drawn_int size lan with_grpc "apply" refl refl
      completed_metrics

-- Whether a message is within a limit, where there is one.
abbrev within : ℤ → Option TelemetryEnvelope → Bool
within limit none = true
within limit (some e) = not (ltb_ℤ limit (pos (size (to_dict e))))

within_lem :
    (limit : ℤ) (o : Option TelemetryEnvelope) (e : TelemetryEnvelope)
    → within limit o ≡ true
    → o ≡ some e
    → ltb_ℤ limit (pos (size (to_dict e))) ≡ false
within_lem limit none e h k = absurd (cc)
within_lem limit (some m) e h k =
    let same : m ≡ e = cc in
    subst (λ x. ltb_ℤ limit (pos (size (to_dict x))) ≡ false) same (ground (arith, h))

config-Fits : Fits moment drawn drawn_int size config (pos 65536)
unfolding planned generate_payload unit_for_metric underscored ◌+++◌ decimal
config-Fits zero e early k = within_lem (pos 65536) _ e refl k
config-Fits (suc zero) e early k = within_lem (pos 65536) _ e refl k
config-Fits (suc (suc zero)) e early k = within_lem (pos 65536) _ e refl k
config-Fits (suc (suc (suc n))) e early k = absurd (omega (arith, early))

dry_run_completes_example :
    IsCompleted config "check" (run_simulation moment drawn drawn_int size lan config "check")
dry_run_completes_example =
    dry_run_completes moment drawn drawn_int size lan config "check" (λ n. refl) (refl, (refl, tt))
      (refl, tt) config-Fits config-Fits valid refl

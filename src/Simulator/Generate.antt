-- ===== src/Simulator/Generate.antt =====
-- The messages of a run.
use hpa_with_bmad.Base.{
  ℕ, zero, suc, ◌%◌, ℤ, pos, pos_part, String, code, Option, none, some, List, [], ◌∷◌, Dict,
  string_eq, ◌==◌, ◌||◌, eqb, if◌then◌else◌, ◌+++◌, decimal, length, get_elem?, text_length,
}
use hpa_with_bmad.Json.{Value, Fields, num, str, from_entries}
use hpa_with_bmad.Simulator.{
  schema_error, crash, Result, ok, failed, SimulatorConfig, TelemetryEnvelope, to_dict,
}
use hpa_with_bmad.Simulator.Envelope.{validate_common_envelope}

-- The metrics of a device type.
abbrev pub variants : String → List String
variants device_type =
    if device_type == "actuator"
    then "valve_position" ∷ "motor_speed" ∷ "command_state" ∷ []
    else if device_type == "gateway"
    then "uptime" ∷ "rx_bytes" ∷ "tx_bytes" ∷ []
    else "temperature" ∷ "humidity" ∷ "pressure" ∷ []

unfoldable pub unit_for_metric : String → String
unit_for_metric metric =
    if metric == "temperature" || (metric == "humidity" || metric == "pressure")
    then "unitless"
    else if metric == "valve_position" || metric == "command_state"
    then "percent"
    else if metric == "motor_speed"
    then "rpm"
    else if metric == "uptime"
    then "seconds"
    else "bytes"

-- `region_id.replace("-", "_")`
unfoldable pub underscored : String → String
underscored String.[] = String.[]
underscored (String.◌∷◌ c s) =
    let rest = underscored s in if eqb (code c) b'-' then "_" +++ rest else String.◌∷◌ c rest

-- `f"{n:05d}"`
abbrev pub zeros : ℕ → String
zeros zero = "00000"
zeros (suc zero) = "0000"
zeros (suc (suc zero)) = "000"
zeros (suc (suc (suc zero))) = "00"
zeros (suc (suc (suc (suc zero)))) = "0"
zeros _ = ""

abbrev pub five_digits : ℕ → String
five_digits n = zeros (text_length (decimal n)) +++ decimal n

-- `xs[n % len(xs)]`; `none` is the ZeroDivisionError of an empty tuple
abbrev pub pick : List String → ℕ → Option String
pick xs n = get_elem? xs (n % length xs)

-- The text of the moment so many seconds after the epoch; what `random.Random(seed)` draws first with
-- `uniform(0.0, 100.0)`, rounded, and what it draws then with `randint`; the size of a message.
module _ (instant : ℕ → String) (uniform : ℤ → Value) (randint : ℤ → ℕ → ℕ → Value)
    (encoded_size : Dict String Value → ℕ) where
  -- `round(base_value, 3)`
  abbrev pub value_of : String → ℤ → Value
  value_of metric seed =
      if metric == "rx_bytes" || metric == "tx_bytes"
      then randint seed 1024 65536
      else if metric == "uptime"
      then randint seed 60 86400
      else uniform seed

  -- `generate_payload`; `none` does not occur, since each type has three metrics
  unfoldable pub generate_payload : ℕ → String → String → ℕ → ℤ → Option Fields
  generate_payload device_index device_type region_id sequence seed =
      elim (pick (variants device_type) device_index) [
        | none ↦ none
        | some metric ↦ some (
            from_entries (
              ("device_index", num (pos device_index))
              ∷ ("device_type", str device_type)
              ∷ ("region_id", str region_id)
              ∷ ("sequence", num (pos sequence))
              ∷ ("metric", str metric)
              ∷ ("value", value_of metric seed)
              ∷ ("unit", str (unit_for_metric metric))
              ∷ ("generated_at", str (instant sequence))
              ∷ []))
      ]

  abbrev pub envelope_of : String → String → String → ℕ → Fields → TelemetryEnvelope
  envelope_of device_id device_type region_id sequence payload = record {
    device_id = device_id;
    device_type = device_type;
    event_type = "telemetry.sample";
    timestamp = instant sequence;
    payload = payload;
    region_id = region_id;
    origin = "iot-device-simulator";
    idempotency_key = device_id +++ ":" +++ decimal sequence;
  }

  -- `generate_envelope`
  unfoldable pub generate_envelope :
      String → String → String → ℕ → Fields → ℤ → Result TelemetryEnvelope
  generate_envelope device_id device_type region_id sequence payload size_limit =
      let e = envelope_of device_id device_type region_id sequence payload in
      elim (validate_common_envelope encoded_size (to_dict e) size_limit) [
        | some message ↦ failed (schema_error message)
        | none ↦ ok e
      ]

  -- One round of the loop.
  unfoldable pub envelope_at : SimulatorConfig → ℕ → Result TelemetryEnvelope
  envelope_at config sequence =
      let device_index = sequence % pos_part config.device_count in
      elim (pick config.device_types device_index) [
        | none ↦ failed crash
        | some device_type ↦ elim (pick config.region_ids device_index) [
          | none ↦ failed crash
          | some region_id ↦
              elim (generate_payload device_index device_type region_id sequence config.seed) [
                | none ↦ failed crash
                | some payload ↦
                    generate_envelope
                      (device_type
                        +++ "-"
                        +++ underscored region_id
                        +++ "-"
                        +++ five_digits device_index)
                      device_type region_id sequence payload config.payload_size_limit_bytes
              ]
        ]
      ]

  -- The rounds that are left, from a sequence number on.
  unfoldable pub generate_from : SimulatorConfig → ℕ → ℕ → Result (List TelemetryEnvelope)
  generate_from config zero sequence = ok []
  generate_from config (suc left) sequence =
      let rest = generate_from config left (suc sequence) in
      elim (envelope_at config sequence) [
        | failed f ↦ failed f
        | ok e ↦ elim rest [ failed f ↦ failed f | ok es ↦ ok (e ∷ es) ]
      ]

  -- `generate_envelopes`, for a configuration that `validate_config` accepts
  unfoldable pub generate_envelopes : SimulatorConfig → Result (List TelemetryEnvelope)
  generate_envelopes config = generate_from config (pos_part config.message_rate) 0

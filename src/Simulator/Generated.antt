-- ===== src/Simulator/Generated.antt =====
-- The messages that a run generates: their number, their order and their form.
use hpa_with_bmad.Base.{
  ℕ, zero, suc, ◌%◌, leb_ℤ, ℤ, pos, pos_part, String, false, none, some, List, [], ◌∷◌, Dict,
  lookup, string_eq, length, ◌≡◌, refl, arith, Option-cases, inl, inr, ◌+++◌, decimal,
}
use hpa_with_bmad.Json.{Value, Fields}
use hpa_with_bmad.Simulator.{
  Result-cases, ok_injective, ok, ProtocolTarget, SimulatorConfig, enabled_of, TelemetryEnvelope,
  to_dict,
}
use hpa_with_bmad.Simulator.Config.{validate_config, find_targets, check_targets, is_empty}
use hpa_with_bmad.Simulator.Envelope.{validate_common_envelope}
use hpa_with_bmad.Simulator.Generate.{
  envelope_at, generate_from, generate_envelopes, generate_envelope, generate_payload, pick,
  envelope_of, underscored, five_digits,
}

-- What an accepted configuration has.
pub record IsRunnable (config : SimulatorConfig) : Type 0 where
  pub devices : leb_ℤ config.device_count (pos 0) ≡ false
  pub messages : leb_ℤ config.message_rate (pos 0) ≡ false
  pub types : is_empty config.device_types ≡ false
  pub regions : is_empty config.region_ids ≡ false
  pub enabled : is_empty (enabled_of config.protocol_targets) ≡ false

check_targets-enabled :
    (http mqtt grpc : ProtocolTarget) (enabled : List String)
    → check_targets http mqtt grpc enabled ≡ none
    → is_empty enabled ≡ false
unfolding check_targets
check_targets-enabled http mqtt grpc enabled h = ground arith

find_targets-enabled :
    (config : SimulatorConfig)
    → find_targets config ≡ none
    → is_empty (enabled_of config.protocol_targets) ≡ false
unfolding find_targets
find_targets-enabled config h = elim (Option-cases (lookup "http" config.protocol_targets)) [
  | inl e ↦ absurd (let k = rw (e, find_targets) at h in cc)
  | inr (http, e) ↦ elim (Option-cases (lookup "mqtt" config.protocol_targets)) [
    | inl f ↦ absurd (let k = rw (e, f, find_targets) at h in cc)
    | inr (mqtt, f) ↦ elim (Option-cases (lookup "grpc" config.protocol_targets)) [
      | inl g ↦ absurd (let k = rw (e, f, g, find_targets) at h in cc)
      | inr (grpc, g) ↦ check_targets-enabled http mqtt grpc _ (rw (e, f, g, find_targets) at h)
    ]
  ]
]

pub validate_config-IsRunnable :
    (config : SimulatorConfig) → validate_config config ≡ none → IsRunnable config
unfolding validate_config
validate_config-IsRunnable config h = record {
  devices = ground arith;
  messages = ground arith;
  types = ground arith;
  regions = ground arith;
  enabled = find_targets-enabled config (ground arith);
}

module _ (instant : ℕ → String) (uniform : ℤ → Value) (randint : ℤ → ℕ → ℕ → Value)
    (encoded_size : Dict String Value → ℕ) (config : SimulatorConfig) where
  -- The message with a sequence number: devices take turns, and each has its type and its region by
  -- its index; the key ends with the sequence number; the message passed the check.
  pub record IsMessage (sequence : ℕ) (e : TelemetryEnvelope) : Type 0 where
    pub typed :
        pick config.device_types (sequence % pos_part config.device_count) ≡ some e.device_type
    pub placed : pick config.region_ids (sequence % pos_part config.device_count) ≡ some e.region_id
    pub named :
        e.device_id
        ≡ e.device_type
          +++ "-"
          +++ underscored e.region_id
          +++ "-"
          +++ five_digits (sequence % pos_part config.device_count)
    pub keyed : e.idempotency_key ≡ e.device_id +++ ":" +++ decimal sequence
    pub accepted :
        validate_common_envelope encoded_size (to_dict e) config.payload_size_limit_bytes ≡ none

  unfoldable pub AreMessages : ℕ → List TelemetryEnvelope → Type 0
  AreMessages sequence [] = Unit
  AreMessages sequence (e ∷ es) = IsMessage sequence e × AreMessages (suc sequence) es

  generate_envelope-ok :
      (device_id device_type region_id : String) (sequence : ℕ) (payload : Fields)
      {e : TelemetryEnvelope}
      → generate_envelope instant uniform randint encoded_size device_id device_type region_id
          sequence payload config.payload_size_limit_bytes
        ≡ ok e
      → (envelope_of instant uniform randint encoded_size device_id device_type region_id sequence
            payload
          ≡ e)
        × (validate_common_envelope encoded_size (to_dict e) config.payload_size_limit_bytes ≡ none)
  unfolding generate_envelope
  generate_envelope-ok device_id device_type region_id sequence payload h =
      elim (Option-cases (
        validate_common_envelope encoded_size
          (to_dict (
            envelope_of instant uniform randint encoded_size device_id device_type region_id
              sequence payload))
          config.payload_size_limit_bytes)) [
            | inr (message, bad) ↦ absurd (let k = rw (bad, generate_envelope) at h in cc)
            | inl good ↦
                let same = ok_injective (rw (good, generate_envelope) at h) in
                (same, rw⁻¹ same good)
          ]

  envelope_at-IsMessage :
      (sequence : ℕ) {e : TelemetryEnvelope}
      → envelope_at instant uniform randint encoded_size config sequence ≡ ok e
      → IsMessage sequence e
  unfolding envelope_at
  envelope_at-IsMessage sequence h =
      let index = sequence % pos_part config.device_count in
      elim (Option-cases (pick config.device_types index)) [
        | inl a ↦ absurd (let k = rw (a, envelope_at) at h in cc)
        | inr (device_type, a) ↦ elim (Option-cases (pick config.region_ids index)) [
          | inl b ↦ absurd (let k = rw (a, b, envelope_at) at h in cc)
          | inr (region_id, b) ↦
              elim (Option-cases (
                generate_payload instant uniform randint encoded_size index device_type region_id
                  sequence config.seed)) [
                    | inl c ↦ absurd (let k = rw (a, b, c, envelope_at) at h in cc)
                    | inr (payload, c) ↦
                        let (same, good) =
                          generate_envelope-ok _ device_type region_id sequence payload
                            (rw (a, b, c, envelope_at) at h) in
                        record {
                          typed = rw⁻¹ same a;
                          placed = rw⁻¹ same b;
                          named = rw⁻¹ same refl;
                          keyed = rw⁻¹ same refl;
                          accepted = good;
                        }
                  ]
        ]
      ]

  pub generate_from-AreMessages :
      (left sequence : ℕ) (es : List TelemetryEnvelope)
      → generate_from instant uniform randint encoded_size config left sequence ≡ ok es
      → (length es ≡ left) × AreMessages sequence es
  unfolding generate_from AreMessages
  generate_from-AreMessages zero sequence [] h = (refl, tt)
  generate_from-AreMessages zero sequence (e ∷ es) h = cc
  generate_from-AreMessages (suc left) sequence es h =
      elim (Result-cases (envelope_at instant uniform randint encoded_size config sequence)) [
        | inr (f, a) ↦ absurd (let k = rw (a, generate_from) at h in cc)
        | inl (e, a) ↦
            elim (Result-cases
              (generate_from instant uniform randint encoded_size config left (suc sequence))) [
                | inr (f, b) ↦ absurd (let k = rw (a, b, generate_from) at h in cc)
                | inl (rest, b) ↦
                    let (count, later) = generate_from-AreMessages left (suc sequence) rest b in
                    let same = ok_injective (rw (a, b, generate_from) at h) in
                    rw⁻¹ same (omega (arith, count), (envelope_at-IsMessage sequence a, later))
              ]
      ]

  -- What a run generates is `message_rate` messages, in order: the one with a sequence number is of the
  -- device with that number modulo `device_count`: that index chooses its type and its region, and its
  -- id is made of the two and of the index with five digits; its idempotency key is its device id with the sequence number, and it passes
  -- `validate_common_envelope` with the configured limit.
  pub generate_envelopes-AreMessages :
      (es : List TelemetryEnvelope)
      → generate_envelopes instant uniform randint encoded_size config ≡ ok es
      → (length es ≡ pos_part config.message_rate) × AreMessages 0 es
  unfolding generate_envelopes
  generate_envelopes-AreMessages es h =
      generate_from-AreMessages (pos_part config.message_rate) 0 es h

-- ===== src/Simulator/DryRun.antt =====
-- A dry run with an accepted configuration comes to its end.
use hpa_with_bmad.Base.{
  ℕ, zero, suc, ◌+◌, ap, Option, ◌≤◌, ◌%◌, ◌<◌, ltb_ℤ, ℤ, pos, pos_part, Char, String, false, none,
  some, List, [], ◌∷◌, Dict, lookup, has_key, string_eq, ◌==◌, eq_iff, ◌+++◌, length, get_elem?,
  All, ◌≡◌, refl, arith, Bool-cases, Option-cases, inl, inr,
}
use native.Mathlib.Nat.{mod-lt}
use hpa_with_bmad.Json.{Value, Fields}
use hpa_with_bmad.Simulator.{ok, SimulatorConfig, TelemetryEnvelope, to_dict}
use hpa_with_bmad.Simulator.Config.{validate_config, is_empty}
use hpa_with_bmad.Simulator.Envelope.{validate_common_envelope, max_envelope_size_bytes}
use hpa_with_bmad.Simulator.Generate.{
  underscored, five_digits, variants, pick, generate_payload, envelope_of, generate_envelope,
  envelope_at, generate_from, generate_envelopes,
}
use hpa_with_bmad.Simulator.Generated.{IsRunnable, validate_config-IsRunnable}
use hpa_with_bmad.Simulator.Emit.{Network}
use hpa_with_bmad.Simulator.Run.{
  ProtocolResult, is_live, attempt, emit_each, emit_all, fresh_results, run_simulation,
}
use hpa_with_bmad.Simulator.Completion.{IsCompleted, run_outcome}

abbrev pub IsText : String → Type 0
IsText s = (s == "") ≡ false

cons-IsText : (c : Char) (s : String) → IsText (String.◌∷◌ c s)
cons-IsText c s = elim (Bool-cases (String.◌∷◌ c s == "")) [
  | inl e ↦
      absurd (let same : String.◌∷◌ c s ≡ "" = ground (arith, e, eq_iff (String.◌∷◌ c s) "") in cc)
  | inr e ↦ e
]

append-IsText : (s t : String) → IsText s → IsText (s +++ t)
unfolding ◌+++◌
append-IsText String.[] t h = cc
append-IsText (String.◌∷◌ c s) t h = cons-IsText c (s +++ t)

get-All :
    {P : String → Type 0} (xs : List String) (n : ℕ)
    → All P xs
    → n < length xs
    → (x : String) × (get_elem? xs n ≡ some x) × P x
get-All [] n h lt = absurd (omega (arith, lt))
get-All (x ∷ xs) zero (h, hs) lt = (x, refl, h)
get-All (x ∷ xs) (suc n) (h, hs) lt = get-All xs n hs (omega (arith, lt))

pick-All :
    {P : String → Type 0} (xs : List String) (n : ℕ)
    → All P xs
    → is_empty xs ≡ false
    → (x : String) × (pick xs n ≡ some x) × P x
pick-All [] n h ne = cc
pick-All (x ∷ xs) n h ne = get-All (x ∷ xs) _ h (mod-lt n (omega arith))

variants-IsText : (device_type : String) → All IsText (variants device_type)
variants-IsText device_type = elim (Bool-cases (device_type == "actuator")) [
  | inl a ↦ rw a (refl, (refl, (refl, tt)))
  | inr a ↦ elim (Bool-cases (device_type == "gateway")) [
    | inl g ↦ rw (a, g) (refl, (refl, (refl, tt)))
    | inr g ↦ rw (a, g) (refl, (refl, (refl, tt)))
  ]
]

-- A message whose texts are not empty and whose size is within the limit is accepted.
record IsFull (e : TelemetryEnvelope) : Type 0 where
  device_id : IsText e.device_id
  device_type : IsText e.device_type
  event_type : IsText e.event_type
  timestamp : IsText e.timestamp
  region_id : IsText e.region_id
  origin : IsText e.origin
  idempotency_key : IsText e.idempotency_key

-- Full, and within the limit of the emission.
abbrev IsSmall : (Dict String Value → ℕ) → TelemetryEnvelope → Type 0
IsSmall encoded_size e =
    IsFull e × (ltb_ℤ max_envelope_size_bytes (pos (encoded_size (to_dict e))) ≡ false)

full_accepted :
    (encoded_size : Dict String Value → ℕ) (e : TelemetryEnvelope) (limit : ℤ)
    → IsFull e
    → ltb_ℤ limit (pos (encoded_size (to_dict e))) ≡ false
    → validate_common_envelope encoded_size (to_dict e) limit ≡ none
unfolding validate_common_envelope has_key lookup
full_accepted encoded_size e limit full fits =
    rw
      (
        full.device_id, full.device_type, full.event_type, full.timestamp, full.region_id,
        full.origin, full.idempotency_key, fits, validate_common_envelope,
      )
      refl

-- The message with a sequence number, before any check of its size.
unfoldable pub planned :
    (ℕ → String)
    → (ℤ → Value)
    → (ℤ → ℕ → ℕ → Value)
    → (Dict String Value → ℕ)
    → SimulatorConfig
    → ℕ
    → Option TelemetryEnvelope
planned instant uniform randint encoded_size config sequence =
    let index = sequence % pos_part config.device_count in
    elim (pick config.device_types index) [
      | none ↦ none
      | some device_type ↦ elim (pick config.region_ids index) [
        | none ↦ none
        | some region_id ↦
            elim (generate_payload instant uniform randint encoded_size index device_type region_id
              sequence config.seed) [
                | none ↦ none
                | some payload ↦ some (
                    envelope_of instant uniform randint encoded_size
                      (device_type +++ "-" +++ underscored region_id +++ "-" +++ five_digits index)
                      device_type region_id sequence payload)
              ]
      ]
    ]

-- Every message that the run generates is within the limit.
abbrev pub Fits :
    (ℕ → String)
    → (ℤ → Value)
    → (ℤ → ℕ → ℕ → Value)
    → (Dict String Value → ℕ)
    → SimulatorConfig
    → ℤ
    → Type 0
Fits instant uniform randint encoded_size config limit =
    (sequence : ℕ) (e : TelemetryEnvelope)
    → sequence < pos_part config.message_rate
    → planned instant uniform randint encoded_size config sequence ≡ some e
    → ltb_ℤ limit (pos (encoded_size (to_dict e))) ≡ false

variants_nonempty : (device_type : String) → is_empty (variants device_type) ≡ false
variants_nonempty device_type = ground arith

module _ (instant : ℕ → String) (uniform : ℤ → Value) (randint : ℤ → ℕ → ℕ → Value)
    (encoded_size : Dict String Value → ℕ) (config : SimulatorConfig)
    (instants : (n : ℕ) → IsText (instant n)) (types : All IsText config.device_types)
    (regions : All IsText config.region_ids)
    (fits : Fits instant uniform randint encoded_size config config.payload_size_limit_bytes)
    (fits_max : Fits instant uniform randint encoded_size config max_envelope_size_bytes)
    (runnable : IsRunnable config) where
  payload_made :
      (index : ℕ) (device_type region_id : String) (sequence : ℕ)
      → (fs : Fields) × (generate_payload instant uniform randint encoded_size index device_type
            region_id sequence config.seed
          ≡ some fs)
  unfolding generate_payload
  payload_made index device_type region_id sequence =
      let (metric, chosen, _) =
        pick-All (variants device_type) index (variants-IsText device_type)
          (variants_nonempty device_type) in
      elim (Option-cases (
        generate_payload instant uniform randint encoded_size index device_type region_id sequence
          config.seed)) [
            | inr (fs, e) ↦ (fs, e)
            | inl e ↦ absurd (let k = rw (chosen, generate_payload) at e in cc)
          ]

  message_made :
      (device_id device_type region_id : String) (sequence : ℕ) (payload : Fields)
      → IsText device_id
      → IsText device_type
      → IsText region_id
      → ltb_ℤ config.payload_size_limit_bytes (
          pos (
            encoded_size (
              to_dict (
                envelope_of instant uniform randint encoded_size device_id device_type region_id
                  sequence payload))))
        ≡ false
      → (e : TelemetryEnvelope) × (generate_envelope instant uniform randint encoded_size device_id
            device_type region_id sequence payload config.payload_size_limit_bytes
          ≡ ok e)
        × IsFull e
        × (envelope_of instant uniform randint encoded_size device_id device_type region_id sequence
              payload
            ≡ e)
  unfolding generate_envelope
  message_made device_id device_type region_id sequence payload named typed placed small =
      let e =
        envelope_of instant uniform randint encoded_size device_id device_type region_id sequence
          payload in
      let full : IsFull e = record {
        device_id = named;
        device_type = typed;
        event_type = refl;
        timestamp = instants sequence;
        region_id = placed;
        origin = refl;
        idempotency_key = append-IsText device_id _ named;
      } in
      let good = full_accepted encoded_size e config.payload_size_limit_bytes full small in
      (e, rw (good, generate_envelope) refl, full, refl)

  envelope_made :
      (sequence : ℕ)
      → sequence < pos_part config.message_rate
      → (e : TelemetryEnvelope) × (envelope_at instant uniform randint encoded_size config sequence
          ≡ ok e)
        × IsFull e
        × (ltb_ℤ max_envelope_size_bytes (pos (encoded_size (to_dict e))) ≡ false)
  unfolding envelope_at planned
  envelope_made sequence early =
      let index = sequence % pos_part config.device_count in
      let (device_type, a, typed) = pick-All config.device_types index types runnable.types in
      let (region_id, b, placed) = pick-All config.region_ids index regions runnable.regions in
      let (payload, c) = payload_made index device_type region_id sequence in
      let device_id = device_type +++ "-" +++ underscored region_id +++ "-" +++ five_digits index in
      let message =
        envelope_of instant uniform randint encoded_size device_id device_type region_id sequence
          payload in
      let known : planned instant uniform randint encoded_size config sequence ≡ some message =
        rw (a, b, c, planned) refl in
      let (e, made, full, same) =
        message_made device_id device_type region_id sequence payload
          (append-IsText device_type _ typed) typed placed (fits sequence message early known) in
      (
        e,
        rw (a, b, c, envelope_at) made,
        full,
        fits_max sequence e early (rw (a, b, c, planned) (ap some same)),
      )

  messages_made :
      (left sequence : ℕ)
      → sequence + left ≤ pos_part config.message_rate
      → (es : List TelemetryEnvelope) × (generate_from instant uniform randint encoded_size config
            left sequence
          ≡ ok es)
        × All (IsSmall encoded_size) es
  unfolding generate_from
  messages_made zero sequence within = ([], refl, tt)
  messages_made (suc left) sequence within =
      let (e, made, full, small) = envelope_made sequence (omega (arith, within)) in
      let (es, rest_made, rest_full) = messages_made left (suc sequence) (omega (arith, within)) in
      (e ∷ es, rw (made, rest_made, generate_from) refl, ((full, small), rest_full))

module _ (encoded_size : Dict String Value → ℕ) (network : Network) (config : SimulatorConfig)
    (mode : String) (dry : is_live mode ≡ false) where
  emit_each_goes_on :
      (e : TelemetryEnvelope) (rs : List ProtocolResult)
      → (emit_each encoded_size network config mode e rs).1 ≡ none
  unfolding emit_each attempt
  emit_each_goes_on e [] = refl
  emit_each_goes_on e (r ∷ rs) = rw (emit_each, attempt, dry) (emit_each_goes_on e rs)

  emit_all_goes_on :
      (es : List TelemetryEnvelope) (rs : List ProtocolResult)
      → All (IsSmall encoded_size) es
      → (emit_all encoded_size network config mode es rs).1 ≡ none
  unfolding emit_all
  emit_all_goes_on [] rs h = refl
  emit_all_goes_on (e ∷ es) rs ((full, small), hs) =
      let good = full_accepted encoded_size e max_envelope_size_bytes full small in
      rw (emit_all, good, emit_each_goes_on e rs) (emit_all_goes_on es _ hs)

-- A dry run with a configuration that `validate_config` accepts comes to its end, whatever the network
-- is: it returns and writes a summary with exit status 0 and every message planned, if no device type,
-- region or moment is an empty text and none of its messages exceeds the configured limit or 64 KiB.
pub dry_run_completes :
    (instant : ℕ → String) (uniform : ℤ → Value) (randint : ℤ → ℕ → ℕ → Value)
    (encoded_size : Dict String Value → ℕ) (network : Network) (config : SimulatorConfig)
    (mode : String)
    → ((n : ℕ) → IsText (instant n))
    → All IsText config.device_types
    → All IsText config.region_ids
    → Fits instant uniform randint encoded_size config config.payload_size_limit_bytes
    → Fits instant uniform randint encoded_size config max_envelope_size_bytes
    → validate_config config ≡ none
    → is_live mode ≡ false
    → IsCompleted config mode
        (run_simulation instant uniform randint encoded_size network config mode)
unfolding run_simulation generate_envelopes
dry_run_completes instant uniform randint encoded_size network config mode instants types regions
      fits fits_max valid dry =
    let (es, made, full) =
      messages_made instant uniform randint encoded_size config instants types regions fits fits_max
        (validate_config-IsRunnable config valid) (pos_part config.message_rate) 0 (omega arith) in
    let goes_on =
      emit_all_goes_on encoded_size network config mode dry es (fresh_results config) full in
    elim (run_outcome instant uniform randint encoded_size network config mode) [
      | inl completed ↦ completed
      | inr aborted ↦ absurd (
          let k = rw (run_simulation, valid, generate_envelopes, made, goes_on) at aborted.raised in
          cc)
    ]

-- ===== src/Simulator/Accounting.antt =====
-- What a run counts: every message once for every enabled protocol, and every failure.
use hpa_with_bmad.Base.{
  ℕ, suc, ◌+◌, ◌≤◌, String, true, none, List, [], ◌∷◌, Dict, lookup, string_eq, length, map, All,
  ◌≡◌, ◌≢◌, refl, arith, Bool-cases, Option-cases, inl, inr, ◌∙◌,
}
use hpa_with_bmad.Json.{Value}
use hpa_with_bmad.Simulator.{ProtocolTarget, SimulatorConfig, TelemetryEnvelope, to_dict}
use hpa_with_bmad.Simulator.Envelope.{validate_common_envelope, max_envelope_size_bytes}
use hpa_with_bmad.Simulator.Emit.{Network, idle, emit_protocol, emit_http, emit_mqtt, emit_grpc}
use hpa_with_bmad.Simulator.Run.{
  ProtocolResult, is_live, attempt, emit_each, emit_all, count_schema_failure,
}
use hpa_with_bmad.Simulator.Counts.{
  protocols, settle-protocol, IsExact, errors, HasCause, settle-HasCause, HasCause-cons,
  settle-IsExact,
}

-- An emission of a live run has a latency or fails.
emit_http-not_idle :
    (network : Network) (e : TelemetryEnvelope) (target : ProtocolTarget) (api_key : String)
    → emit_http network e target api_key ≢ idle
unfolding emit_http
emit_http-not_idle network e target api_key = ground arith

emit_mqtt-not_idle :
    (network : Network) (e : TelemetryEnvelope) (target : ProtocolTarget)
    → emit_mqtt network e target ≢ idle
unfolding emit_mqtt
emit_mqtt-not_idle network e target = ground arith

emit_grpc-not_idle :
    (network : Network) (e : TelemetryEnvelope) (target : ProtocolTarget)
    → emit_grpc network e target ≢ idle
unfolding emit_grpc
emit_grpc-not_idle network e target = ground arith

emit_protocol-not_idle :
    (network : Network) (e : TelemetryEnvelope) (protocol : String) (target : ProtocolTarget)
    (api_key : String)
    → emit_protocol network e protocol target true api_key ≢ idle
unfolding emit_protocol
emit_protocol-not_idle network e protocol target api_key = ground (
  arith,
  emit_http-not_idle network e target api_key,
  emit_mqtt-not_idle network e target,
  emit_grpc-not_idle network e target,
)

module _ (encoded_size : Dict String Value → ℕ) (network : Network) (config : SimulatorConfig)
    (mode : String) where
  attempt-HasCause :
      (e : TelemetryEnvelope) (r : ProtocolResult) (rs : List ProtocolResult)
      → HasCause
          ((attempt encoded_size network config mode e r).0 ∷ rs)
          (attempt encoded_size network config mode e r).1
  unfolding attempt HasCause
  attempt-HasCause e r rs = elim (Bool-cases (is_live mode)) [
    | inr dry ↦ rw (dry, attempt, HasCause) tt
    | inl live ↦ elim (Option-cases (lookup r.protocol config.protocol_targets)) [
      | inl absent ↦ rw (live, absent, attempt, HasCause) tt
      | inr (target, found) ↦ rw (live, found, attempt) (settle-HasCause _ _ rs)
    ]
  ]

  attempt-IsExact :
      (e : TelemetryEnvelope) (r : ProtocolResult) (n : ℕ)
      → IsExact (is_live mode) n r
      → (attempt encoded_size network config mode e r).1 ≡ none
      → IsExact (is_live mode) (suc n) (attempt encoded_size network config mode e r).0
  unfolding attempt
  attempt-IsExact e r n h done = elim (Bool-cases (is_live mode)) [
    | inr dry ↦
        let k = rw dry at h in
        rw (dry, attempt)
          record {
            planned = ground (arith, k);
            accepted = k.accepted;
            timed = k.timed;
            rejected = k.rejected;
            connected = k.connected;
            well_formed = k.well_formed;
            delivered = k.delivered;
          }
    | inl live ↦ elim (Option-cases (lookup r.protocol config.protocol_targets)) [
      | inl absent ↦ absurd (let k = rw (live, absent, attempt) at done in cc)
      | inr (target, found) ↦
          let not_idle = emit_protocol-not_idle network e r.protocol target config.api_key in
          rw (live, found, attempt, live)
            (settle-IsExact _ r n not_idle (rw live at h) (rw (live, found, attempt, live) at done))
    ]
  ]

  attempt-protocol :
      (e : TelemetryEnvelope) (r : ProtocolResult)
      → (attempt encoded_size network config mode e r).0.protocol ≡ r.protocol
  unfolding attempt
  attempt-protocol e r = elim (Bool-cases (is_live mode)) [
    | inr dry ↦ rw (dry, attempt) refl
    | inl live ↦ elim (Option-cases (lookup r.protocol config.protocol_targets)) [
      | inl absent ↦ rw (live, absent, attempt) refl
      | inr (target, found) ↦ rw (live, found, attempt) (settle-protocol _ _)
    ]
  ]

  -- The protocols stay as they are.
  emit_each-protocols :
      (e : TelemetryEnvelope) (rs : List ProtocolResult)
      → protocols (emit_each encoded_size network config mode e rs).0 ≡ protocols rs
  unfolding emit_each
  emit_each-protocols e [] = refl
  emit_each-protocols e (r ∷ rs) =
      elim (Option-cases (attempt encoded_size network config mode e r).1) [
        | inl on ↦ rw (on, emit_each) (rw (attempt-protocol e r, emit_each-protocols e rs) refl)
        | inr (f, stop) ↦ rw (stop, emit_each) (rw (attempt-protocol e r) refl)
      ]

  pub emit_all-protocols :
      (es : List TelemetryEnvelope) (rs : List ProtocolResult)
      → (emit_all encoded_size network config mode es rs).1 ≡ none
      → protocols (emit_all encoded_size network config mode es rs).0 ≡ protocols rs
  unfolding emit_all
  emit_all-protocols [] rs done = refl
  emit_all-protocols (e ∷ es) rs done =
      elim (Option-cases
        (validate_common_envelope encoded_size (to_dict e) max_envelope_size_bytes)) [
          | inr (message, bad) ↦ absurd (let k = rw (bad, emit_all) at done in cc)
          | inl good ↦ elim (Option-cases (emit_each encoded_size network config mode e rs).1) [
            | inr (f, stop) ↦ absurd (let k = rw (good, stop, emit_all) at done in cc)
            | inl on ↦
                rw (good, on, emit_all)
                  (emit_all-protocols es _ (rw (good, on, emit_all) at done)
                    ∙ emit_each-protocols e rs)
          ]
        ]

  emit_each-HasCause :
      (e : TelemetryEnvelope) (rs : List ProtocolResult)
      → HasCause
          (emit_each encoded_size network config mode e rs).0
          (emit_each encoded_size network config mode e rs).1
  unfolding emit_each HasCause
  emit_each-HasCause e [] = tt
  emit_each-HasCause e (r ∷ rs) =
      elim (Option-cases (attempt encoded_size network config mode e r).1) [
        | inl on ↦
            rw (on, emit_each)
              (HasCause-cons (attempt encoded_size network config mode e r).0 _ _
                (emit_each-HasCause e rs))
        | inr (f, stop) ↦ rw (stop, emit_each) (rw stop at (attempt-HasCause e r rs))
      ]

  emit_each-IsExact :
      (e : TelemetryEnvelope) (rs : List ProtocolResult) (n : ℕ)
      → All (IsExact (is_live mode) n) rs
      → (emit_each encoded_size network config mode e rs).1 ≡ none
      → All (IsExact (is_live mode) (suc n)) (emit_each encoded_size network config mode e rs).0
  unfolding emit_each
  emit_each-IsExact e [] n h done = tt
  emit_each-IsExact e (r ∷ rs) n (h, hs) done =
      elim (Option-cases (attempt encoded_size network config mode e r).1) [
        | inl on ↦
            rw (on, emit_each)
              (attempt-IsExact e r n h on, emit_each-IsExact e rs n hs (rw (on, emit_each) at done))
        | inr (f, stop) ↦ absurd (let k = rw (stop, emit_each) at done in cc)
      ]

  schema_errors :
      (rs : List ProtocolResult)
      → rs ≢ []
      → 1 ≤ errors (map (count_schema_failure encoded_size network config mode) rs)
  schema_errors [] ne = absurd (ne refl)
  schema_errors (r ∷ rs) ne = omega arith

  emit_each-nonempty :
      (e : TelemetryEnvelope) (rs : List ProtocolResult)
      → rs ≢ []
      → (emit_each encoded_size network config mode e rs).0 ≢ []
  unfolding emit_each
  emit_each-nonempty e [] ne = absurd (ne refl)
  emit_each-nonempty e (r ∷ rs) ne =
      elim (Option-cases (attempt encoded_size network config mode e r).1) [
        | inl on ↦ rw (on, emit_each) (λ h. cc)
        | inr (f, stop) ↦ rw (stop, emit_each) (λ h. cc)
      ]

  pub emit_all-HasCause :
      (es : List TelemetryEnvelope) (rs : List ProtocolResult)
      → rs ≢ []
      → HasCause
          (emit_all encoded_size network config mode es rs).0
          (emit_all encoded_size network config mode es rs).1
  unfolding emit_all HasCause
  emit_all-HasCause [] rs ne = tt
  emit_all-HasCause (e ∷ es) rs ne =
      elim (Option-cases
        (validate_common_envelope encoded_size (to_dict e) max_envelope_size_bytes)) [
          | inr (message, bad) ↦ rw (bad, emit_all) (schema_errors rs ne)
          | inl good ↦ elim (Option-cases (emit_each encoded_size network config mode e rs).1) [
            | inl on ↦ rw (good, on, emit_all) (emit_all-HasCause es _ (emit_each-nonempty e rs ne))
            | inr (f, stop) ↦ rw (good, stop, emit_all) (rw stop at (emit_each-HasCause e rs))
          ]
        ]

  pub emit_all-IsExact :
      (es : List TelemetryEnvelope) (rs : List ProtocolResult) (n : ℕ)
      → All (IsExact (is_live mode) n) rs
      → (emit_all encoded_size network config mode es rs).1 ≡ none
      → All
          (IsExact (is_live mode) (length es + n))
          (emit_all encoded_size network config mode es rs).0
  unfolding emit_all
  emit_all-IsExact [] rs n h done = let none_left : 0 + n ≡ n = omega arith in rw none_left h
  emit_all-IsExact (e ∷ es) rs n h done =
      elim (Option-cases
        (validate_common_envelope encoded_size (to_dict e) max_envelope_size_bytes)) [
          | inr (message, bad) ↦ absurd (let k = rw (bad, emit_all) at done in cc)
          | inl good ↦ elim (Option-cases (emit_each encoded_size network config mode e rs).1) [
            | inr (f, stop) ↦ absurd (let k = rw (good, stop, emit_all) at done in cc)
            | inl on ↦
                let later =
                  emit_all-IsExact es _ (suc n) (emit_each-IsExact e rs n h on)
                    (rw (good, on, emit_all) at done) in
                let counted : length es + suc n ≡ suc (length es) + n = omega arith in
                rw (good, on, emit_all) (rw counted at later)
          ]
        ]

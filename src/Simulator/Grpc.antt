-- ===== src/Simulator/Grpc.antt =====
-- A live run with gRPC: `emit_grpc` calls `encode` on the payload, which is a dictionary.
use hpa_with_bmad.Base.{
  ℕ, ◌≤◌, leb_ℤ, ℤ, pos, negsuc, pos_part, String, Bool, true, false, Option, none, some, List, [],
  ◌∷◌, Dict, lookup, string_eq, ◌==◌, eq_iff, any, map, ◌≡◌, ◌≢◌, ◌⊎◌, refl, arith, Bool-cases,
  Option-cases, inl, inr,
}
use hpa_with_bmad.Json.{Value}
use hpa_with_bmad.Simulator.{
  Failure, config_error, schema_error, protocol_error, crash, Result-cases, ok, ProtocolTarget,
  SimulatorConfig, enabled_of, TelemetryEnvelope, to_dict,
}
use hpa_with_bmad.Simulator.Config.{validate_config, blank}
use hpa_with_bmad.Simulator.Envelope.{validate_common_envelope, max_envelope_size_bytes}
use hpa_with_bmad.Simulator.Generate.{generate_envelopes}
use hpa_with_bmad.Simulator.Generated.{validate_config-IsRunnable, generate_from-AreMessages}
use hpa_with_bmad.Simulator.Emit.{
  Network, Emission, uncaught, protocol_failure, emit_grpc, emit_protocol, set_fields,
}
use hpa_with_bmad.Simulator.Run.{
  ProtocolResult, make_protocol_result, settle, RunMetrics, finish, is_live, attempt, emit_each,
  emit_all, run_simulation,
}

no_message : (show : Value → String) (e : TelemetryEnvelope) → set_fields show (to_dict e) [] ≡ none
unfolding set_fields
no_message show e = refl

-- How an emission ends for which nothing was sent.
abbrev pub Fails : Emission → Type 0
Fails x = (x ≡ uncaught) ⊎ (x ≡ protocol_failure)

emit_grpc-Fails :
    (network : Network) (e : TelemetryEnvelope) (target : ProtocolTarget)
    → Fails (emit_grpc network e target)
unfolding emit_grpc
emit_grpc-Fails network e target = elim (Option-cases network.grpc) [
  | inl absent ↦ rw (absent, emit_grpc) (inr refl)
  | inr (call, found) ↦ elim (Bool-cases (blank target.endpoint)) [
    | inl empty ↦ rw (found, empty, emit_grpc) (inr refl)
    | inr full ↦ rw (found, full, emit_grpc, no_message network.show e) (inl refl)
  ]
]

settle-stops : (x : Emission) (r : ProtocolResult) → Fails x → (settle x r).1 ≢ none
settle-stops x r (inl e) = rw e (λ h. cc)
settle-stops x r (inr e) = rw e (λ h. cc)

module _ (encoded_size : Dict String Value → ℕ) (network : Network) (config : SimulatorConfig)
    (mode : String) (live : is_live mode ≡ true) where
  attempt-stops :
      (e : TelemetryEnvelope) (r : ProtocolResult)
      → r.protocol ≡ "grpc"
      → (attempt encoded_size network config mode e r).1 ≢ none
  unfolding attempt emit_protocol
  attempt-stops e r named = elim (Option-cases (lookup r.protocol config.protocol_targets)) [
    | inl absent ↦ rw (live, absent, attempt) (λ h. cc)
    | inr (target, found) ↦
        rw (live, found, attempt, live)
          (settle-stops _ _ (rw (named, emit_protocol) (emit_grpc-Fails network e target)))
  ]

  has_grpc : List ProtocolResult → Bool
  has_grpc rs = any (λ r. r.protocol == "grpc") rs

  emit_each-stops :
      (e : TelemetryEnvelope) (rs : List ProtocolResult)
      → has_grpc rs ≡ true
      → (emit_each encoded_size network config mode e rs).1 ≢ none
  unfolding emit_each has_grpc
  emit_each-stops e [] h = cc
  emit_each-stops e (r ∷ rs) h =
      elim (Option-cases (attempt encoded_size network config mode e r).1) [
        | inr (f, stop) ↦ rw (stop, emit_each) (λ k. cc)
        | inl on ↦ elim (Bool-cases (r.protocol == "grpc")) [
          | inl named ↦
              absurd (attempt-stops e r (ground (arith, named, eq_iff r.protocol "grpc")) on)
          | inr other ↦ rw (on, emit_each) (emit_each-stops e rs (rw other at h))
        ]
      ]

  emit_all-stops :
      (e : TelemetryEnvelope) (es : List TelemetryEnvelope) (rs : List ProtocolResult)
      → has_grpc rs ≡ true
      → (emit_all encoded_size network config mode (e ∷ es) rs).1 ≢ none
  unfolding emit_all
  emit_all-stops e es rs h =
      elim (Option-cases
        (validate_common_envelope encoded_size (to_dict e) max_envelope_size_bytes)) [
          | inr (message, bad) ↦ rw (bad, emit_all) (λ k. cc)
          | inl good ↦ elim (Option-cases (emit_each encoded_size network config mode e rs).1) [
            | inl on ↦ absurd (emit_each-stops e rs h on)
            | inr (f, stop) ↦ rw (good, stop, emit_all) (λ k. cc)
          ]
        ]

  fresh_grpc :
      (names : List String)
      → any (λ n. n == "grpc") names ≡ true
      → has_grpc (map make_protocol_result names) ≡ true
  unfolding has_grpc
  fresh_grpc [] h = h
  fresh_grpc (name ∷ names) h = elim (Bool-cases (name == "grpc")) [
    | inl named ↦ rw named refl
    | inr other ↦ rw other (fresh_grpc names (rw other at h))
  ]

stopped_outcome :
    (metrics : RunMetrics) (stop : Option Failure) {m : RunMetrics}
    → stop ≢ none
    → (finish metrics stop).outcome ≢ ok m
stopped_outcome metrics none ne = absurd (ne refl)
stopped_outcome metrics (some crash) ne = λ h. cc
stopped_outcome metrics (some (config_error _)) ne = λ h. cc
stopped_outcome metrics (some (schema_error _)) ne = λ h. cc
stopped_outcome metrics (some protocol_error) ne = λ h. cc

leb_pos_part : (n : ℤ) → leb_ℤ n (pos 0) ≡ false → 1 ≤ pos_part n
leb_pos_part (pos n) h = ground (arith, h)
leb_pos_part (negsuc n) h = ground (arith, h)

-- With gRPC among the enabled protocols no live run returns, whatever is installed and whatever the
-- network answers: the first message that reaches gRPC ends it.
pub grpc_never_completes :
    (instant : ℕ → String) (uniform : ℤ → Value) (randint : ℤ → ℕ → ℕ → Value)
    (encoded_size : Dict String Value → ℕ) (network : Network) (config : SimulatorConfig)
    (mode : String)
    → is_live mode ≡ true
    → any (λ name. name == "grpc") (enabled_of config.protocol_targets) ≡ true
    → (m : RunMetrics)
    → (run_simulation instant uniform randint encoded_size network config mode).outcome ≢ ok m
unfolding run_simulation generate_envelopes
grpc_never_completes instant uniform randint encoded_size network config mode live enabled m =
    elim (Option-cases (validate_config config)) [
      | inr (f, bad) ↦ rw (bad, run_simulation) (λ h. cc)
      | inl valid ↦
          elim (Result-cases (generate_envelopes instant uniform randint encoded_size config)) [
            | inr (f, bad) ↦ rw (valid, bad, run_simulation) (λ h. cc)
            | inl ([], made) ↦
                let runnable = validate_config-IsRunnable config valid in
                let (count, _) =
                  generate_from-AreMessages instant uniform randint encoded_size config _ 0 []
                    made in
                absurd (omega (arith, count, leb_pos_part config.message_rate runnable.messages))
            | inl (e ∷ es, made) ↦
                rw (valid, made, run_simulation)
                  (stopped_outcome _ _ (
                    emit_all-stops encoded_size network config mode live e es _
                      (fresh_grpc encoded_size network config mode live _ enabled)))
          ]
    ]

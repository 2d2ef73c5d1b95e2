-- ===== src/Simulator/Completion.antt =====
-- How a run ends, and what its summary says.
use hpa_with_bmad.Base.{
  ℕ, ◌+◌, ◌≤◌, ℤ, pos_part, String, Bool, true, false, none, some, List, [], ◌∷◌, Dict, string_eq,
  length, map, All, ◌≡◌, ◌≢◌, refl, arith, Option-cases, inl, inr, ◌⊎◌,
}
use hpa_with_bmad.Json.{Value}
use hpa_with_bmad.Simulator.{
  Failure, config_error, schema_error, protocol_error, crash, Result-cases, ok, failed,
  ProtocolTarget, SimulatorConfig, enabled_of, TelemetryEnvelope,
}
use hpa_with_bmad.Simulator.Config.{validate_config, is_empty}
use hpa_with_bmad.Simulator.Generate.{generate_envelopes}
use hpa_with_bmad.Simulator.Emit.{Network}
use hpa_with_bmad.Simulator.Run.{
  make_protocol_result, to_summary, RunMetrics, RunEnd, finish, is_live, emit_all, fresh_results,
  metrics_of, run_simulation,
}
use hpa_with_bmad.Simulator.Generated.{validate_config-IsRunnable, generate_from-AreMessages}
use hpa_with_bmad.Simulator.Counts.{protocols, IsExact, errors, HasCause, totals_lem}
use hpa_with_bmad.Simulator.Accounting.{emit_all-HasCause, emit_all-IsExact, emit_all-protocols}

fresh-IsExact :
    (live : Bool) (names : List String) → All (IsExact live 0) (map make_protocol_result names)
fresh-IsExact live [] = tt
fresh-IsExact live (name ∷ names) = (
  record {
    planned = refl;
    accepted = ground arith;
    timed = refl;
    rejected = refl;
    connected = refl;
    well_formed = refl;
    delivered = refl;
  },
  fresh-IsExact live names,
)

map_nonempty : (names : List String) → is_empty names ≡ false → map make_protocol_result names ≢ []
map_nonempty [] h = cc
map_nonempty (name ∷ names) h = λ e. cc

-- The protocols are those of the enabled targets, one for each, in their order.
pub data Covers : Dict String ProtocolTarget → List String → Type 0 where
  all_covered : Covers [] []
  passed_over :
      (name : String) (target : ProtocolTarget) (targets : Dict String ProtocolTarget)
      (names : List String)
      → target.enabled ≡ false
      → Covers targets names
      → Covers ((name, target) ∷ targets) names
  covered :
      (name : String) (target : ProtocolTarget) (targets : Dict String ProtocolTarget)
      (names : List String)
      → target.enabled ≡ true
      → Covers targets names
      → Covers ((name, target) ∷ targets) (name ∷ names)

fresh-Covers :
    (targets : Dict String ProtocolTarget)
    → Covers targets (protocols (map make_protocol_result (enabled_of targets)))
fresh-Covers [] = all_covered
fresh-Covers ((name, target) ∷ targets) = at (fresh-Covers targets) target.enabled refl
  where
    at :
        Covers targets (protocols (map make_protocol_result (enabled_of targets)))
        → (enabled : Bool) → target.enabled ≡ enabled
        → Covers ((name, target) ∷ targets) (
            protocols (
              map make_protocol_result
                (elim enabled [ true ↦ name ∷ enabled_of targets | false ↦ enabled_of targets ])))
    at later true e = covered name target targets _ e later
    at later false e = passed_over name target targets _ e later

-- The two ways in which a run ends.
pub record IsCompleted (config : SimulatorConfig) (mode : String) (end : RunEnd) : Type 0 where
  pub metrics : RunMetrics
  pub returned : end.outcome ≡ ok metrics
  pub written : end.written ≡ some metrics
  pub generated : metrics.messages_generated ≡ pos_part config.message_rate
  pub covers : Covers config.protocol_targets (protocols metrics.protocol_results)
  pub counted : All (IsExact (is_live mode) (pos_part config.message_rate)) metrics.protocol_results
  pub succeeded : (to_summary metrics).exit_status ≡ 0

pub record IsAborted (end : RunEnd) : Type 0 where
  pub failure : Failure
  pub raised : end.outcome ≡ failed failure
  pub reported :
      (end.written ≡ none)
      ⊎ ((m : RunMetrics) × (end.written ≡ some m) × ((to_summary m).exit_status ≡ 1))

status_0 : (m : RunMetrics) → errors m.protocol_results ≡ 0 → (to_summary m).exit_status ≡ 0
unfolding to_summary
status_0 m h = rw h refl

status_1 : (m : RunMetrics) → 1 ≤ errors m.protocol_results → (to_summary m).exit_status ≡ 1
unfolding to_summary
status_1 m h = ground (arith, h)

finish-IsAborted :
    (m : RunMetrics) (f : Failure)
    → HasCause m.protocol_results (some f)
    → IsAborted (finish m (some f))
unfolding HasCause
finish-IsAborted m crash h = record { failure = _; raised = refl; reported = inl refl }
finish-IsAborted m (config_error _) h = record {
  failure = _;
  raised = refl;
  reported = inr (m, refl, status_1 m h);
}
finish-IsAborted m (schema_error _) h = record {
  failure = _;
  raised = refl;
  reported = inr (m, refl, status_1 m h);
}
finish-IsAborted m protocol_error h = record {
  failure = _;
  raised = refl;
  reported = inr (m, refl, status_1 m h);
}

module _ (instant : ℕ → String) (uniform : ℤ → Value) (randint : ℤ → ℕ → ℕ → Value)
    (encoded_size : Dict String Value → ℕ) (network : Network) (config : SimulatorConfig)
    (mode : String) where
  after_loop :
      validate_config config ≡ none
      → (es : List TelemetryEnvelope)
      → generate_envelopes instant uniform randint encoded_size config ≡ ok es
      → let end = emit_all encoded_size network config mode es (fresh_results config) in
        let m = metrics_of config mode es end.0 in
        IsCompleted config mode (finish m end.1) ⊎ IsAborted (finish m end.1)
  unfolding generate_envelopes
  after_loop valid es made =
      let end = emit_all encoded_size network config mode es (fresh_results config) in
      let m = metrics_of config mode es end.0 in
      let nonempty = map_nonempty _ (validate_config-IsRunnable config valid).enabled in
      elim (Option-cases end.1) [
        | inr (f, stop) ↦ rw stop (
            inr (
              finish-IsAborted m f
                (rw stop at (emit_all-HasCause encoded_size network config mode es _ nonempty))))
        | inl done ↦
            let exact =
              emit_all-IsExact encoded_size network config mode es _ 0
                (fresh-IsExact (is_live mode) (enabled_of config.protocol_targets)) done in
            let (count, _) =
              generate_from-AreMessages instant uniform randint encoded_size config _ 0 es made in
            let all : length es + 0 ≡ pos_part config.message_rate = omega (arith, count) in
            rw done (
              inl record {
                metrics = m;
                returned = refl;
                written = refl;
                generated = count;
                covers =
                    rw
                      (emit_all-protocols encoded_size network config mode es (fresh_results config)
                        done)
                      (fresh-Covers config.protocol_targets);
                counted = rw all at exact;
                succeeded = status_0 m (totals_lem _ _ end.0 exact).0;
              })
      ]

  -- A run returns or raises. A run that returns has generated `message_rate` messages and written its
  -- summary, whose exit status is 0; it counts for the enabled protocols, each once and in their order,
  -- and for no other; each of them has every message planned once, accepted
  -- once with one latency in a live run and never otherwise, and no failure. A run that raises has
  -- written no summary or one whose exit status is 1.
  pub run_outcome :
      IsCompleted config mode
        (run_simulation instant uniform randint encoded_size network config mode)
      ⊎ IsAborted (run_simulation instant uniform randint encoded_size network config mode)
  unfolding run_simulation generate_envelopes
  run_outcome = elim (Option-cases (validate_config config)) [
    | inr (f, bad) ↦
        rw (bad, run_simulation) (inr record { failure = f; raised = refl; reported = inl refl })
    | inl valid ↦
        elim (Result-cases (generate_envelopes instant uniform randint encoded_size config)) [
          | inr (f, bad) ↦
              rw (valid, bad, run_simulation)
                (inr record { failure = f; raised = refl; reported = inl refl })
          | inl (es, made) ↦ rw (valid, made, run_simulation) (after_loop valid es made)
        ]
  ]

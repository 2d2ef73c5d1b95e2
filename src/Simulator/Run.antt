-- ===== src/Simulator/Run.antt =====
-- A run: its loop over the messages, what it counts, the summary and the exit status.
use hpa_with_bmad.Base.{
  ℕ, suc, ◌+◌, eqb, ℤ, String, Bool, Option, none, some, List, [], ◌∷◌, ◌++◌, Dict, lookup,
  string_eq, ◌==◌, ◌||◌, not, if◌then◌else◌, length, map,
}
use hpa_with_bmad.Json.{Value}
use hpa_with_bmad.Simulator.{
  Failure, config_error, schema_error, protocol_error, crash, Result, ok, failed, SimulatorConfig,
  enabled_of, TelemetryEnvelope, to_dict,
}
use hpa_with_bmad.Simulator.Config.{validate_config}
use hpa_with_bmad.Simulator.Envelope.{validate_common_envelope, max_envelope_size_bytes}
use hpa_with_bmad.Simulator.Generate.{generate_envelopes}
use hpa_with_bmad.Simulator.Emit.{
  Network, Emission, sent, idle, connection_failure, protocol_failure, uncaught, emit_protocol,
}

pub record ProtocolResult : Type 0 where
  pub protocol : String
  pub planned : ℕ
  pub accepted : ℕ
  pub rejected : ℕ
  pub connection_failures : ℕ
  pub schema_failures : ℕ
  pub protocol_failures : ℕ
  pub latencies_ms : List ℕ

-- `RunMetrics`, without its times and paths
pub record RunMetrics : Type 0 where
  pub mode : String
  pub target_rps : ℤ
  pub messages_generated : ℕ
  pub device_count : ℤ
  pub region_count : ℕ
  pub message_rate : ℤ
  pub protocol_results : List ProtocolResult

-- The counts of `to_summary`; its ratios, percentiles and times are left out.
pub record Summary : Type 0 where
  pub total_messages : ℕ
  pub accepted_messages : ℕ
  pub rejected_messages : ℕ
  pub connection_failures : ℕ
  pub schema_failures : ℕ
  pub protocol_failures : ℕ
  pub exit_status : ℕ

abbrev pub make_protocol_result : String → ProtocolResult
make_protocol_result protocol = record {
  protocol = protocol;
  planned = 0;
  accepted = 0;
  rejected = 0;
  connection_failures = 0;
  schema_failures = 0;
  protocol_failures = 0;
  latencies_ms = [];
}

abbrev pub total : (ProtocolResult → ℕ) → List ProtocolResult → ℕ
total count [] = 0
total count (r ∷ rs) = count r + total count rs

unfoldable pub to_summary : RunMetrics → Summary
to_summary m =
    let rejected = total (λ r. r.rejected) m.protocol_results in
    let connection = total (λ r. r.connection_failures) m.protocol_results in
    let schema = total (λ r. r.schema_failures) m.protocol_results in
    let protocol = total (λ r. r.protocol_failures) m.protocol_results in
    record {
      total_messages = total (λ r. r.planned) m.protocol_results;
      accepted_messages = total (λ r. r.accepted) m.protocol_results;
      rejected_messages = rejected;
      connection_failures = connection;
      schema_failures = schema;
      protocol_failures = protocol;
      exit_status = if eqb (rejected + connection + protocol + schema) 0 then 0 else 1;
    }

-- The `except` clauses on one emission, for a result whose `planned` is counted.
abbrev pub settle : Emission → ProtocolResult → ProtocolResult × Option Failure
settle (sent ms) r =
    (record r { accepted = suc r.accepted; latencies_ms = r.latencies_ms ++ ms ∷ [] }, none)
settle idle r = (r, none)
settle connection_failure r =
    (record r { connection_failures = suc r.connection_failures }, some protocol_error)
settle protocol_failure r =
    (record r { protocol_failures = suc r.protocol_failures }, some protocol_error)
settle uncaught r = (r, some crash)

-- `mode in {"apply", "live"}`
abbrev pub is_live : String → Bool
is_live mode = mode == "apply" || mode == "live"

module _ (encoded_size : Dict String Value → ℕ) (network : Network) (config : SimulatorConfig)
    (mode : String) where
  -- One message to one protocol, whose target is looked up only in a live run.
  unfoldable pub attempt : TelemetryEnvelope → ProtocolResult → ProtocolResult × Option Failure
  attempt e r =
      let planned = record r { planned = suc r.planned } in
      if not (is_live mode)
      then (planned, none)
      else elim (lookup r.protocol config.protocol_targets) [
        | none ↦ (planned, some crash)
        | some target ↦
            settle (emit_protocol network e r.protocol target (is_live mode) config.api_key) planned
      ]

  -- The inner loop: one message to every enabled protocol, until one fails.
  unfoldable pub emit_each :
      TelemetryEnvelope → List ProtocolResult → List ProtocolResult × Option Failure
  emit_each e [] = ([], none)
  emit_each e (r ∷ rs) =
      let rest = emit_each e rs in
      let (done, stop) = attempt e r in
      elim stop [ some failure ↦ (done ∷ rs, some failure) | none ↦ (done ∷ rest.0, rest.1) ]

  abbrev pub count_schema_failure : ProtocolResult → ProtocolResult
  count_schema_failure r = record r { schema_failures = suc r.schema_failures }

  -- The outer loop.
  unfoldable pub emit_all :
      List TelemetryEnvelope → List ProtocolResult → List ProtocolResult × Option Failure
  emit_all [] rs = (rs, none)
  emit_all (e ∷ es) rs =
      elim (validate_common_envelope encoded_size (to_dict e) max_envelope_size_bytes) [
        | some message ↦ (map count_schema_failure rs, some (schema_error message))
        | none ↦
            let (done, stop) = emit_each e rs in
            elim stop [ some failure ↦ (done, some failure) | none ↦ emit_all es done ]
      ]

-- How a run ends: the metrics whose summary it wrote, if it wrote one, and what it returned or raised.
pub record RunEnd : Type 0 where
  pub written : Option RunMetrics
  pub outcome : Result RunMetrics

-- `run_simulation` from the loop's end on: an exception that is not caught leaves no summary.
abbrev pub finish : RunMetrics → Option Failure → RunEnd
finish m none = record { written = some m; outcome = ok m }
finish m (some crash) = record { written = none; outcome = failed crash }
finish m (some failure) = record { written = some m; outcome = failed failure }

abbrev pub metrics_of :
    SimulatorConfig → String → List TelemetryEnvelope → List ProtocolResult → RunMetrics
metrics_of config mode envelopes results = record {
  mode = mode;
  target_rps = config.message_rate;
  messages_generated = length envelopes;
  device_count = config.device_count;
  region_count = length config.region_ids;
  message_rate = config.message_rate;
  protocol_results = results;
}

abbrev pub fresh_results : SimulatorConfig → List ProtocolResult
fresh_results config = map make_protocol_result (enabled_of config.protocol_targets)

-- How `main` ends: with an exit status, or with an exception that it does not catch.
pub data Exit : Type 0 where
  code : ℕ → Exit
  raised : Exit

module _ (instant : ℕ → String) (uniform : ℤ → Value) (randint : ℤ → ℕ → ℕ → Value)
    (encoded_size : Dict String Value → ℕ) (network : Network) where
  unfoldable pub run_simulation : SimulatorConfig → String → RunEnd
  run_simulation config mode = elim (validate_config config) [
    | some failure ↦ record { written = none; outcome = failed failure }
    | none ↦ elim (generate_envelopes instant uniform randint encoded_size config) [
      | failed failure ↦ record { written = none; outcome = failed failure }
      | ok envelopes ↦
          let end = emit_all encoded_size network config mode envelopes (fresh_results config) in
          finish (metrics_of config mode envelopes end.0) end.1
    ]
  ]

  abbrev pub exit_of : Result RunMetrics → Exit
  exit_of (ok m) = code (to_summary m).exit_status
  exit_of (failed (config_error _)) = code 2
  exit_of (failed (schema_error _)) = code 6
  exit_of (failed protocol_error) = code 5
  exit_of (failed crash) = raised

  -- The mode of the flags `--live`, `--apply` and `--check`.
  abbrev pub mode_of : Bool → Bool → Bool → String
  mode_of live apply check =
      if live then "live" else if apply then "apply" else if check then "check" else "dry-run"

  -- `main`; `load` is `load_config` on the file, with its `resolve_api_key`, and `none` for a file that
  -- is missing.
  unfoldable pub main : Option (Bool → Result SimulatorConfig) → Bool → Bool → Bool → Exit
  main none live apply check = code 2
  main (some load) live apply check =
      let mode = mode_of live apply check in
      elim (load (is_live mode)) [
        | failed failure ↦ exit_of (failed failure)
        | ok config ↦ exit_of (run_simulation config mode).outcome
      ]

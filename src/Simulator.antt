-- ===== src/Simulator.antt =====
-- scripts/telemetry/telemetry_simulator.py: the data of the telemetry simulator. Error messages are
-- kept where the code's own words are all of them; an exception that nothing catches is `crash`.
pub mod Config
pub mod Envelope
pub mod Generate
pub mod Emit
pub mod Run
pub mod Generated
pub mod Counts
pub mod Accounting
pub mod Completion
pub mod Grpc
pub mod DryRun
pub mod Tests
use hpa_with_bmad.Base.{
  ℤ, ◌≡◌, ◌⊎◌, inl, inr, refl, String, Bool, true, false, Option, List, [], ◌∷◌, Dict,
}
use hpa_with_bmad.Json.{Value, Fields, str, obj}

-- The exceptions that end a run: TelemetryConfigError, TelemetrySchemaError,
-- TelemetryProtocolError, and any other.
pub data Failure : Type 0 where
  config_error : String → Failure
  schema_error : String → Failure
  protocol_error : Failure
  crash : Failure

pub data Result {ℓ} (A : Type ℓ) : Type ℓ where
  ok : A → Result A
  failed : Failure → Result A

pub Result-cases {ℓ} :
    {A : Type ℓ} (r : Result A) → ((a : A) × (r ≡ ok a)) ⊎ ((f : Failure) × (r ≡ failed f))
Result-cases (ok a) = inl (a, refl)
Result-cases (failed f) = inr (f, refl)

pub ok_injective {ℓ} : {A : Type ℓ} {a b : A} → ok a ≡ ok b → a ≡ b
ok_injective h = cc

-- `ProtocolTarget`; its timeout belongs to the exchange with the target.
pub record ProtocolTarget : Type 0 where
  pub enabled : Bool
  pub url : Option String
  pub broker : Option String
  pub topic : Option String
  pub endpoint : Option String
  pub service : Option String
  pub method : Option String

-- `SimulatorConfig`, as far as a run reads it.
pub record SimulatorConfig : Type 0 where
  pub device_count : ℤ
  pub message_rate : ℤ
  pub device_types : List String
  pub region_ids : List String
  pub protocol_targets : Dict String ProtocolTarget
  pub api_key : String
  pub seed : ℤ
  pub payload_size_limit_bytes : ℤ

-- `enabled_protocols`
abbrev pub enabled_of : Dict String ProtocolTarget → List String
enabled_of [] = []
enabled_of ((name, target) ∷ targets) =
    let rest = enabled_of targets in elim target.enabled [ true ↦ name ∷ rest | false ↦ rest ]

-- `TelemetryEnvelope`
pub record TelemetryEnvelope : Type 0 where
  pub device_id : String
  pub device_type : String
  pub event_type : String
  pub timestamp : String
  pub payload : Fields
  pub region_id : String
  pub origin : String
  pub idempotency_key : String

-- `to_dict`
abbrev pub to_dict : TelemetryEnvelope → Dict String Value
to_dict e =
    ("device_id", str e.device_id)
    ∷ ("device_type", str e.device_type)
    ∷ ("event_type", str e.event_type)
    ∷ ("timestamp", str e.timestamp)
    ∷ ("payload", obj e.payload)
    ∷ ("region_id", str e.region_id)
    ∷ ("origin", str e.origin)
    ∷ ("idempotency_key", str e.idempotency_key)
    ∷ []

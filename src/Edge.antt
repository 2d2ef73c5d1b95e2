-- ===== src/Edge.antt =====
-- scripts/services/events-ingest.py: the edge service, its state and its data.
pub mod Ulid
pub mod Envelope
pub mod Ingest
pub mod Alerts
pub mod Service
pub mod Effect
pub mod Invariant
pub mod Keys
pub mod Idempotency
pub mod Accounting
pub mod Guards
mod Tests
use hpa_with_bmad.Base.{
  ℕ, ℤ, pos, String, Bool, true, false, Option, none, some, List, [], ◌∷◌, ◌++◌, Dict, lookup,
  string_eq, ◌==◌, any, ◌&&◌,
}
use hpa_with_bmad.Json.{Value, null, str, arr, obj, is_text}
use hpa_with_bmad.Json.Key.{Key, key_eq}
use hpa_with_bmad.Http.{Request, header}

abbrev pub events_api_key : String
events_api_key = "hpdc-events-dev-key"

abbrev pub telemetry_api_key : String
telemetry_api_key = "hpdc-telemetry-dev-key"

abbrev pub required_fields : List String
required_fields =
    "device_id" ∷ "device_type" ∷ "event_type" ∷ "timestamp" ∷ "payload" ∷ "region_id" ∷ []

abbrev pub max_body_bytes : ℤ
max_body_bytes = pos 65536

abbrev pub backpressure_threshold_ms : ℤ
backpressure_threshold_ms = pos 50000

abbrev pub drop_budget_ms : ℤ
drop_budget_ms = pos 200000

abbrev pub backoff_base_ms : ℕ
backoff_base_ms = 200

abbrev pub alert_states : List String
alert_states = "initial" ∷ "acknowledged" ∷ "investigating" ∷ "resolved" ∷ "closed" ∷ []

abbrev pub alert_transitions : Dict String (List String)
alert_transitions =
    ("initial", "acknowledged" ∷ [])
    ∷ ("acknowledged", "investigating" ∷ [])
    ∷ ("investigating", "resolved" ∷ [])
    ∷ ("resolved", "closed" ∷ [])
    ∷ ("closed", [])
    ∷ []

-- One entry of a record's history.
pub record Change : Type 0 where
  pub to : String
  pub actor : Value
  pub reason : Value

pub record AlertRecord : Type 0 where
  pub alert_id : Value
  pub state : String
  pub body : Dict String Value
  pub created_at : String
  pub history : List Change

-- The fields of `EdgeServer`, and the NDJSON files that it appends to.
pub record Server : Type 0 where
  pub lag_ms : ℤ
  pub backoff_count : ℕ
  pub dropped_total : ℤ
  pub alerts : Dict Key AlertRecord
  pub idempotency : Dict Key Value
  pub events_log : List Value
  pub incoming_topic : List Value

abbrev pub init : Server
init = record {
  lag_ms = pos 0;
  backoff_count = 0;
  dropped_total = pos 0;
  alerts = [];
  idempotency = [];
  events_log = [];
  incoming_topic = [];
}

-- What a handler takes from outside: the formatted clock, the clock in milliseconds, and ten random
-- bytes as a big-endian number.
pub record Ambient : Type 0 where
  pub now : String
  pub millis : ℕ
  pub random : ℕ

-- `_auth_ok`
unfoldable pub auth_ok : String → Request → Bool
auth_ok expected req = elim (header req "X-API-Key") [
  | none ↦ false
  | some key ↦ key == expected && elim (header req "Authorization") [ none ↦ true | some _ ↦ false ]
]

abbrev pub successors : String → List String
successors state = elim (lookup state alert_transitions) [ none ↦ [] | some next ↦ next ]

-- `target not in ALERT_TRANSITIONS.get(current, ())` negated, for a text
unfoldable pub allows : String → String → Bool
allows current target = any (λ s. s == target) (successors current)

-- ===== src/Edge/Ingest.antt =====
-- The ingestion handlers of events-ingest.py: /events, /telemetry, /telemetry/batch, /control/lag and
-- /metrics.
use hpa_with_bmad.Base.{
  ℕ, ◌+◌, ◌*◌, ◌^◌, ℤ, pos, ◌+ℤ◌, leb_ℤ, String, none, some, [], ◌∷◌, ◌++◌, if◌then◌else◌, not,
  ◌&&◌, Dict, lookup, insert, string_eq, ◌==◌,
}
use hpa_with_bmad.Json.{Value, str, num, object}
use hpa_with_bmad.Json.Number.{int_of}
use hpa_with_bmad.Http.{
  Request, Response, json, aborted, failed, on_reading, read_or_400, with_object,
}
use hpa_with_bmad.Edge.{
  Server, Ambient, auth_ok, events_api_key, telemetry_api_key, max_body_bytes, drop_budget_ms,
  backpressure_threshold_ms, backoff_base_ms,
}
use hpa_with_bmad.Edge.Ulid.{ulid}
use hpa_with_bmad.Edge.Envelope.{validate_envelope}

abbrev pub Handler : Type 0
Handler = Request → Server → Response × Server

abbrev pub key_for : String → String
key_for route = if route == "/events" then events_api_key else telemetry_api_key

-- The entry that an accepted envelope leaves in events.ndjson.
unfoldable pub event_entry : Ambient → String → Dict String Value → Value
event_entry env route d = object (
    insert "route" (str route)
      (insert "accepted_at" (str env.now) (insert "event_id" (str (ulid env.millis env.random)) d)))

abbrev pub accept_reply : Ambient → Response
accept_reply env =
    json 202
      (object (("event_id", str (ulid env.millis env.random)) ∷ ("accepted_at", str env.now) ∷ []))

unfoldable pub accept : Ambient → String → Value → Server → Response × Server
unfolding event_entry
accept env route v s =
    with_object v s λ d.
      (accept_reply env, record s { events_log = s.events_log ++ event_entry env route d ∷ [] })

-- `_reject_or_accept`
unfoldable pub reject_or_accept : Ambient → String → Handler
unfolding on_reading with_object
reject_or_accept env route req s =
    if not (auth_ok (key_for route) req)
    then (failed 401 "unauthorized", s)
    else read_or_400 max_body_bytes req s λ v. elim (validate_envelope v) [
      | some message ↦ (failed 400 message, s)
      | none ↦ accept env route v s
    ]

abbrev pub batch_reply : ℤ → ℤ → ℕ → Response
batch_reply delivered dropped backoff = json 202 (
    object (
      ("delivered", num delivered)
      ∷ ("dropped", num dropped)
      ∷ ("backoff_ms", num (pos backoff))
      ∷ []))

-- `body.get("count", 0)`
abbrev pub get_or_zero : String → Dict String Value → Value
get_or_zero k d = elim (lookup k d) [ none ↦ num (pos 0) | some v ↦ v ]

-- The decision of `_telemetry_batch` on a batch of `count` messages.
unfoldable pub batch : ℤ → Server → Response × Server
batch count s =
    if leb_ℤ drop_budget_ms s.lag_ms
    then (
      batch_reply (pos 0) count (backoff_base_ms * 2 ^ 12),
      record s { dropped_total = s.dropped_total +ℤ count },
    )
    else if leb_ℤ backpressure_threshold_ms s.lag_ms
    then (
      batch_reply count (pos 0) (backoff_base_ms * 2 ^ (s.backoff_count + 1)),
      record s { backoff_count = s.backoff_count + 1 },
    )
    else (batch_reply count (pos 0) 0, record s { backoff_count = 0 })

-- `_telemetry_batch` past the check of the keys; `int` may raise outside of the `try`
unfoldable pub batch_body : Handler
unfolding batch on_reading with_object
batch_body req s = read_or_400 max_body_bytes req s λ v.
    with_object v s λ d. elim (int_of (get_or_zero "count" d)) [
      | none ↦ (aborted, s)
      | some count ↦ batch count s
    ]

-- `_telemetry_batch`
unfoldable pub telemetry_batch : Handler
unfolding batch_body
telemetry_batch req s =
    if not (auth_ok events_api_key req) && not (auth_ok telemetry_api_key req)
    then (failed 401 "unauthorized", s)
    else batch_body req s

unfoldable pub set_lag : ℤ → Server → Server
set_lag lag s =
    if leb_ℤ drop_budget_ms lag
    then record s { lag_ms = lag; dropped_total = s.dropped_total +ℤ pos 1 }
    else record s { lag_ms = lag }

abbrev pub lag_reply : ℤ → Response
lag_reply lag = json 200 (object (("lag_ms", num lag) ∷ []))

-- `_control_lag`
unfoldable pub control_lag : Handler
unfolding set_lag on_reading with_object
control_lag req s =
    if not (auth_ok events_api_key req)
    then (failed 401 "unauthorized", s)
    else read_or_400 max_body_bytes req s λ v. with_object v s λ d.
      elim (int_of (get_or_zero "lag_ms" d)) [
        | none ↦ (aborted, s)
        | some lag ↦ (lag_reply lag, set_lag lag s)
      ]

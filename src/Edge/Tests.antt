-- ===== src/Edge/Tests.antt =====
-- Runs of the edge service, and its theorems at concrete inputs.
use hpa_with_bmad.Base.{
  text_length, pos, ◌+ℤ◌, String, false, none, some, [], ◌∷◌, ◌≡◌, ◌⊎◌, ◌↔◌, refl, arith, Dict,
  lookup, string_eq, ◌+++◌, insert, strip_prefix, strip_suffix, ends_with, has_key,
}
use hpa_with_bmad.Json.{
  Value, Fields, end, field, null, num, str, obj, object, entries, as_object, get,
}
use hpa_with_bmad.Json.Key.{text_key, key_eq}
use hpa_with_bmad.Json.Number.{int_of_text}
use hpa_with_bmad.Http.{Request, document, aborted, failed, status_of, read_body}
use hpa_with_bmad.Edge.{Server, Ambient, AlertRecord, init, auth_ok, allows}
use hpa_with_bmad.Edge.Ulid.{ulid, ulid_fields, decode}
use hpa_with_bmad.Edge.Envelope.{validate_envelope}
use hpa_with_bmad.Edge.Ingest.{telemetry_batch, control_lag}
use hpa_with_bmad.Edge.Alerts.{
  create_from, create_alert, transition_record, alert_reply, new_record, enriched_event,
  transition_alert,
}
use hpa_with_bmad.Edge.Service.{Call, post_call, handle, serve, do_post, transition_id}
use hpa_with_bmad.Edge.Invariant.{IsWellFormed, serve-IsWellFormed}
use hpa_with_bmad.Edge.Idempotency.{IsKeyed, create_once, create_lost}
use hpa_with_bmad.Edge.Accounting.{total_observed, dropped-serve}
use hpa_with_bmad.Edge.Guards.{
  keyless_post, IsEnvelope, validate_envelope_iff, IsAdvanced, transition_cases,
}

abbrev env : Ambient
env = record { now = "2026-08-01T00:00:00.000Z"; millis = 1785000000000; random = 7 }

abbrev key_headers : Dict String String
key_headers = ("X-API-Key", "hpdc-events-dev-key") ∷ ("Content-Length", "60") ∷ []

abbrev alert : Dict String Value
alert = ("alert_id", str "a1") ∷ ("source_change_id", str "c1") ∷ []

abbrev create_call : Call
create_call =
    post_call env (record {
      path = "/alerts";
      query = [];
      headers = key_headers;
      body = document (object alert);
    })

abbrev acknowledge_call : Call
acknowledge_call = post_call env (record {
  path = "/alerts/a1/transition";
  query = [];
  headers = key_headers;
  body = document (object (("target_state", str "acknowledged") ∷ []));
})

abbrev lag_call : Call
lag_call = post_call env (record {
  path = "/control/lag";
  query = [];
  headers = key_headers;
  body = document (object (("lag_ms", num (pos 250000)) ∷ []));
})

abbrev batch_call : Call
batch_call = post_call env (record {
  path = "/telemetry/batch";
  query = [];
  headers = key_headers;
  body = document (object (("count", num (pos 10)) ∷ []));
})

creates_alert : (handle create_call init).0 ≡ alert_reply 202 (str "a1") "initial"
unfolding handle create_alert auth_ok read_body lookup int_of_text
creates_alert = refl

acknowledges :
    (handle acknowledge_call (serve (create_call ∷ []) init)).0
    ≡ alert_reply 200 (str "a1") "acknowledged"
unfolding handle serve create_alert transition_alert auth_ok read_body lookup insert int_of_text
    transition_id strip_prefix strip_suffix allows
acknowledges = refl

drops : (serve (lag_call ∷ batch_call ∷ []) init).dropped_total ≡ pos 11
unfolding handle serve telemetry_batch control_lag auth_ok read_body lookup int_of_text ◌+ℤ◌
drops = refl

serve-IsWellFormed_example : IsWellFormed (serve (create_call ∷ acknowledge_call ∷ []) init)
serve-IsWellFormed_example = serve-IsWellFormed (create_call ∷ acknowledge_call ∷ [])

alert-IsKeyed : IsKeyed alert (text_key "c1")
unfolding lookup
alert-IsKeyed = record { has_id = refl; has_source = refl; source_key = refl }

replies : status_of (create_from env alert (serve [] init)).0 ≡ some 202
unfolding create_from serve lookup
replies = refl

create_once_example :
    (original : Value) × (state state' : String) × ((create_from env alert (serve [] init)).0
      ≡ alert_reply 202 original state)
    × (create_from env alert
          (serve (acknowledge_call ∷ []) (create_from env alert (serve [] init)).1)
        ≡ (
          alert_reply 200 original state',
          serve (acknowledge_call ∷ []) (create_from env alert (serve [] init)).1,
        ))
create_once_example =
    create_once [] (acknowledge_call ∷ []) env env alert alert (text_key "c1") 202 alert-IsKeyed
      alert-IsKeyed replies

-- An alert whose metadata is a text: the event cannot be built.
abbrev bad_alert : Dict String Value
bad_alert = ("alert_id", str "a2") ∷ ("source_change_id", str "c2") ∷ ("metadata", str "cpu") ∷ []

bad_alert-IsKeyed : IsKeyed bad_alert (text_key "c2")
unfolding lookup
bad_alert-IsKeyed = record { has_id = refl; has_source = refl; source_key = refl }

bad_lost : enriched_event (get "alert_id" bad_alert) bad_alert ≡ none
unfolding enriched_event lookup
bad_lost = refl

bad_fresh : lookup (text_key "c2") (serve [] init).idempotency ≡ none
unfolding serve lookup
bad_fresh = refl

create_lost_example :
    (state : String) × ((create_from env bad_alert (serve [] init)).0 ≡ aborted)
    × ((create_from env bad_alert (serve [] init)).1.incoming_topic
        ≡ (serve [] init).incoming_topic)
    × (create_from env bad_alert
          (serve (lag_call ∷ []) (create_from env bad_alert (serve [] init)).1)
        ≡ (
          alert_reply 200 (get "alert_id" bad_alert) state,
          serve (lag_call ∷ []) (create_from env bad_alert (serve [] init)).1,
        ))
create_lost_example =
    create_lost [] (lag_call ∷ []) env env bad_alert (text_key "c2") (text_key "a2")
      bad_alert-IsKeyed (unfold lookup in refl) bad_fresh bad_lost

dropped-serve_example :
    (serve (lag_call ∷ batch_call ∷ []) init).dropped_total
    ≡ pos 0 +ℤ total_observed (lag_call ∷ batch_call ∷ []) init
dropped-serve_example = dropped-serve (lag_call ∷ batch_call ∷ []) init

abbrev keyless : Request
keyless = record { path = "/alerts"; query = []; headers = []; body = document (object alert) }

keyless_post_example :
    (do_post env keyless init ≡ (failed 401 "unauthorized", init))
    ⊎ (do_post env keyless init ≡ (failed 404 "not found", init))
keyless_post_example = keyless_post env keyless init (unfold auth_ok lookup in (refl, refl))

abbrev envelope : Dict String Value
envelope =
    ("device_id", str "d")
    ∷ ("device_type", str "t")
    ∷ ("event_type", str "e")
    ∷ ("timestamp", str "2026-08-01T00:00:00Z")
    ∷ ("payload", obj end)
    ∷ ("region_id", str "r")
    ∷ []

accepts_envelope : validate_envelope (object envelope) ≡ none
unfolding validate_envelope has_key ends_with
accepts_envelope = refl

validate_envelope_iff_example :
    (validate_envelope (object envelope) ≡ none)
    ↔ ((d : Dict String Value) × (as_object (object envelope) ≡ some d) × IsEnvelope d)
validate_envelope_iff_example = validate_envelope_iff (object envelope)

abbrev fresh_record : AlertRecord
fresh_record = new_record env (str "a1") alert

abbrev to_acknowledged : Fields
to_acknowledged = field "target_state" (str "acknowledged") end

asks : get "target_state" (entries to_acknowledged) ≡ str "acknowledged"
unfolding lookup
asks = refl

transition_cases_example :
    ((transition_record "a1" (obj to_acknowledged) fresh_record init).0
        ≡ alert_reply 200 (str "a1") "acknowledged")
      × IsAdvanced "a1" "acknowledged"
          (entries to_acknowledged)
          fresh_record
          init
          (transition_record "a1" (obj to_acknowledged) fresh_record init).1
    ⊎ (allows fresh_record.state "acknowledged" ≡ false)
      × (status_of (transition_record "a1" (obj to_acknowledged) fresh_record init).0 ≡ some 409)
      × ((transition_record "a1" (obj to_acknowledged) fresh_record init).1 ≡ init)
transition_cases_example =
    transition_cases "a1" "acknowledged" to_acknowledged fresh_record init asks

abbrev behind : Server
behind = record init { lag_ms = pos 60000 }

-- The same alert without a source_change_id.
abbrev plain_alert : Dict String Value
plain_alert = ("alert_id", str "a1") ∷ []

plain_event : Value
plain_event = object (
    ("alert_id", str "a1")
    ∷ ("device_id", null)
    ∷ ("severity", null)
    ∷ ("timestamp", null)
    ∷ (
      "enriched",
      object
          (("region_id", str "region-1") ∷ ("tenant_id", str "company:acme") ∷ ("rule", null) ∷ []),
    )
    ∷ [])

plain_sent : enriched_event (get "alert_id" plain_alert) plain_alert ≡ some plain_event
unfolding enriched_event lookup plain_event
plain_sent = refl

ulid_fields_example :
    (x y : String) × (ulid 1785000000000 7 ≡ x +++ y)
    × (text_length x ≡ 10)
    × (text_length y ≡ 16)
    × (decode 0 x ≡ 1785000000000)
    × (decode 0 y ≡ 7)
ulid_fields_example = ulid_fields 1785000000000 7 (omega arith) (omega arith)

-- ===== src/Edge/Alerts.antt =====
-- The alert handlers of events-ingest.py: creation with an idempotency key, and transitions.
use hpa_with_bmad.Base.{
  ℕ, pos, String, Bool, false, Option, none, some, [], ◌∷◌, ◌++◌, if◌then◌else◌, not, Dict, lookup,
  insert, has_key, string_eq, ◌+++◌,
}
use hpa_with_bmad.Json.{Value, str, num, object, as_object, get, truthy, or_empty}
use hpa_with_bmad.Json.Key.{Key, text_key, key_of, key_eq}
use hpa_with_bmad.Http.{
  Response, json, aborted, failed, on_reading, read_or_400, with_object, query_param,
}
use hpa_with_bmad.Edge.{
  Server, Ambient, AlertRecord, auth_ok, events_api_key, max_body_bytes, allows,
}
use hpa_with_bmad.Edge.Ingest.{Handler}

abbrev device_context : Dict String (String × String)
device_context =
    ("device-8193f4", ("region-1", "company:acme"))
    ∷ ("sensor-93d21f", ("region-1", "company:acme"))
    ∷ []

-- `DEVICE_CONTEXT.get(k, …)` for a key that may be any hashable value
abbrev context_of : Key → String × String
context_of (text_key k) = elim (lookup k device_context) [
  | none ↦ ("region-1", "company:acme")
  | some c ↦ c
]
context_of _ = ("region-1", "company:acme")

-- `_enriched_event`. `none` is an exception: a device_id that is not hashable, or a metadata that is
-- true and no dictionary.
unfoldable pub enriched_event : Value → Dict String Value → Option Value
enriched_event alert_id alert = elim (key_of (get "device_id" alert)) [
  | none ↦ none
  | some device ↦ elim (as_object (or_empty (get "metadata" alert))) [
    | none ↦ none
    | some metadata ↦
        let (region, tenant) = context_of device in
        some (
          object (
            ("alert_id", alert_id)
            ∷ ("device_id", get "device_id" alert)
            ∷ ("severity", get "severity" alert)
            ∷ ("timestamp", get "timestamp" alert)
            ∷ (
              "enriched",
              object (
                  ("region_id", str region)
                  ∷ ("tenant_id", str tenant)
                  ∷ ("rule", get "rule" metadata)
                  ∷ []),
            )
            ∷ []))
  ]
]

abbrev pub alert_reply : ℕ → Value → String → Response
alert_reply status alert_id state =
    json status (object (("alert_id", alert_id) ∷ ("state", str state) ∷ []))

abbrev pub new_record : Ambient → Value → Dict String Value → AlertRecord
new_record env alert_id alert = record {
  alert_id = alert_id;
  state = "initial";
  body = alert;
  created_at = env.now;
  history = [];
}

-- The two writes to the server's dictionaries: the record, and the idempotency key if there is one.
unfoldable pub store_alert :
    Ambient → Value → Key → Option Key → Dict String Value → Server → Server
store_alert env alert_id key source alert s = record s {
  alerts = insert key (new_record env alert_id alert) s.alerts;
  idempotency = elim source [
    | none ↦ s.idempotency
    | some source_key ↦ insert source_key alert_id s.idempotency
  ];
}

-- The last part of `_create_alert`: the topic gets the event, unless building it raises.
unfoldable pub publish : Value → Dict String Value → Server → Response × Server
unfolding enriched_event
publish alert_id alert s = elim (enriched_event alert_id alert) [
  | none ↦ (aborted, s)
  | some event ↦ (
    alert_reply 202 alert_id "initial",
    record s { incoming_topic = s.incoming_topic ++ event ∷ [] },
  )
]

-- `_create_alert` past the idempotency check; `alerts[alert_id] = …` raises on an unhashable id.
unfoldable pub record_alert :
    Ambient → Value → Option Key → Dict String Value → Server → Response × Server
unfolding store_alert publish
record_alert env alert_id source alert s = elim (key_of alert_id) [
  | none ↦ (aborted, s)
  | some key ↦ publish alert_id alert (store_alert env alert_id key source alert s)
]

-- The reply to a repeated source_change_id; a missing alert would be a KeyError.
unfoldable pub repeat_alert : Value → Server → Response × Server
repeat_alert original s = elim (key_of original) [
  | none ↦ (aborted, s)
  | some key ↦ elim (lookup key s.alerts) [
    | none ↦ (aborted, s)
    | some existing ↦ (alert_reply 200 original existing.state, s)
  ]
]

-- `_create_alert` once its body is a dictionary
unfoldable pub create_from : Ambient → Dict String Value → Server → Response × Server
unfolding repeat_alert record_alert
create_from env alert s =
    if not (truthy (get "alert_id" alert))
    then (failed 400 "alert_id is required", s)
    else if not (truthy (get "source_change_id" alert))
    then record_alert env (get "alert_id" alert) none alert s
    else elim (key_of (get "source_change_id" alert)) [
      | none ↦ (aborted, s)
      | some source ↦ elim (lookup source s.idempotency) [
        | some original ↦ repeat_alert original s
        | none ↦ record_alert env (get "alert_id" alert) (some source) alert s
      ]
    ]

-- `_create_alert`
unfoldable pub create_alert : Ambient → Handler
unfolding create_from on_reading with_object
create_alert env req s =
    if not (auth_ok events_api_key req)
    then (failed 401 "unauthorized", s)
    else read_or_400 max_body_bytes req s λ v. with_object v s λ alert. create_from env alert s

-- `record["state"] = target` and the new entry of the history
unfoldable pub advance : String → Dict String Value → AlertRecord → AlertRecord
advance target body r = record r {
  state = target;
  history =
      r.history
      ++ record { to = target; actor = get "actor" body; reason = get "reason" body } ∷ [];
}

abbrev pub target_text : Value → String
target_text (str s) = s
target_text _ = "None"

-- `target not in ALERT_TRANSITIONS.get(current, ())` negated: the tuple holds texts only
abbrev pub allowed_target : String → Value → Bool
allowed_target current (str target) = allows current target
allowed_target current _ = false

-- `_transition_alert` once the record is found. The message prints a target that is no text as None.
unfoldable pub transition_record : String → Value → AlertRecord → Server → Response × Server
unfolding advance with_object
transition_record alert_id v r s = with_object v s λ body.
    if allowed_target r.state (get "target_state" body)
    then (
      alert_reply 200 (str alert_id) (target_text (get "target_state" body)),
      record s {
        alerts =
            insert (text_key alert_id) (advance (target_text (get "target_state" body)) body r)
              s.alerts;
      },
    )
    else (
      failed 409
          ("invalid transition " +++ r.state +++ " -> " +++ target_text (get "target_state" body)),
      s,
    )

-- `_transition_alert`
unfoldable pub transition_alert : String → Handler
unfolding transition_record on_reading with_object
transition_alert alert_id req s =
    if not (auth_ok events_api_key req)
    then (failed 401 "unauthorized", s)
    else read_or_400 max_body_bytes req s λ v. elim (lookup (text_key alert_id) s.alerts) [
      | none ↦ (failed 404 "alert not found", s)
      | some r ↦ transition_record alert_id v r s
    ]

-- `_count_alerts`; the parameter of a query is a text
unfoldable pub count_alerts : Handler
count_alerts req s = elim (query_param req "source_change_id") [
  | none ↦ (failed 400 "source_change_id is required", s)
  | some source ↦ (
    json 200 (
        object
          (("count", num (if has_key (text_key source) s.idempotency then pos 1 else pos 0)) ∷ [])),
    s,
  )
]

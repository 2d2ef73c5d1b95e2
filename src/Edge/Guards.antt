-- ===== src/Edge/Guards.antt =====
-- What the edge service refuses: keys, envelopes and transitions.
use hpa_with_bmad.Base.{
  ℕ, suc, ◌+◌, ◌*◌, ◌^◌, ℤ, pos, ◌≤ℤ◌, leb_ℤ, String, true, false, none, some, List, [], ◌∷◌, ◌≡◌,
  ◌≢◌, ◌↔◌, ◌⊎◌, refl, eq_iff, arith, Dict, lookup, has_key, string_eq, Bool-cases, Option-cases,
  inl, inr, All, ◌++◌, ends_with, lookup-insert_self, lookup-insert_ne, sym, length,
}
use hpa_with_bmad.Json.{Value, Fields, str, obj, entries, get, truthy, as_object}
use hpa_with_bmad.Json.Key.{Key, key_of, text_key, key_eq}
use hpa_with_bmad.Http.{Request, failed, status_of, header}
use hpa_with_bmad.Edge.{
  Server, Ambient, AlertRecord, allows, required_fields, auth_ok, events_api_key, telemetry_api_key,
  drop_budget_ms, backpressure_threshold_ms,
}
use hpa_with_bmad.Edge.Envelope.{validate_envelope, envelope_error, missing_fields}
use hpa_with_bmad.Edge.Ingest.{batch, batch_reply, reject_or_accept, telemetry_batch, control_lag}
use hpa_with_bmad.Edge.Alerts.{
  create_alert, transition_alert, transition_record, alert_reply, advance, create_from,
  record_alert, publish, store_alert, new_record, enriched_event,
}
use hpa_with_bmad.Edge.Service.{do_post}

-- A request without one of the two keys: no X-API-Key that is right, or an Authorization header.
abbrev pub IsKeyless : Request → Type 0
IsKeyless req = (auth_ok events_api_key req ≡ false) × (auth_ok telemetry_api_key req ≡ false)

-- A POST without a valid key changes nothing, whatever its path and body, and is answered 401 or, off
-- the routes, 404.
pub keyless_post :
    (env : Ambient) (req : Request) (s : Server)
    → IsKeyless req
    → (do_post env req s ≡ (failed 401 "unauthorized", s))
      ⊎ (do_post env req s ≡ (failed 404 "not found", s))
unfolding do_post reject_or_accept telemetry_batch control_lag create_alert transition_alert
keyless_post env req s h = ground arith

-- What a client must send to pass the check.
pub auth_ok_iff :
    (expected : String) (req : Request)
    → (auth_ok expected req ≡ true)
      ↔ ((header req "X-API-Key" ≡ some expected) × (header req "Authorization" ≡ none))
unfolding auth_ok
auth_ok_iff expected req = elim (Option-cases (header req "X-API-Key")) [
  | inl e ↦ rw (e, auth_ok) (ground arith)
  | inr (key, e) ↦ rw (e, auth_ok) (ground (arith, eq_iff key expected))
]

-- What an envelope must be.
pub record IsEnvelope (d : Dict String Value) : Type 0 where
  pub complete :
      All
        (λ f. has_key f d ≡ true)
        ("device_id" ∷ "device_type" ∷ "event_type" ∷ "timestamp" ∷ "payload" ∷ "region_id" ∷ [])
  pub payload : (fs : Fields) × (get "payload" d ≡ obj fs)
  pub timestamp : (t : String) × (get "timestamp" d ≡ str t) × (ends_with "Z" t ≡ true)

missing_fields_iff :
    (fs : List String) (d : Dict String Value)
    → (missing_fields fs d ≡ []) ↔ All (λ f. has_key f d ≡ true) fs
unfolding missing_fields
missing_fields_iff [] d = (λ _. tt, λ _. refl)
missing_fields_iff (f ∷ fs) d =
    let (to, from) = missing_fields_iff fs d in
    elim (Bool-cases (has_key f d)) [
      | inl here ↦ rw here (λ e. (refl, to e), λ a. from a.1)
      | inr gone ↦ rw gone (λ e. cc, λ a. cc)
    ]

IsEnvelope-sound : (d : Dict String Value) → envelope_error d ≡ none → IsEnvelope d
unfolding envelope_error
IsEnvelope-sound d h = record {
  complete = (missing_fields_iff required_fields d).0 (ground arith);
  payload = ground arith;
  timestamp = ground arith;
}

IsEnvelope-complete : (d : Dict String Value) → IsEnvelope d → envelope_error d ≡ none
unfolding envelope_error
IsEnvelope-complete d w =
    let (fs, p) = w.payload in
    let (t, q, z) = w.timestamp in
    rw ((missing_fields_iff required_fields d).1 w.complete, p, q, z, envelope_error) refl

-- `validate_envelope` accepts exactly the dictionaries that have the six fields, a dictionary for the
-- payload and for the timestamp a text that ends in Z, whatever stands before it.
pub validate_envelope_iff :
    (v : Value)
    → (validate_envelope v ≡ none)
      ↔ ((d : Dict String Value) × (as_object v ≡ some d) × IsEnvelope d)
unfolding validate_envelope
validate_envelope_iff (obj fs) = (
  λ h. (entries fs, refl, IsEnvelope-sound (entries fs) h),
  λ (d, e, w). let e' : entries fs ≡ d = cc in rw e' (IsEnvelope-complete d w),
)
validate_envelope_iff _ = (λ h. cc, λ (d, e, w). cc)

-- What a transition that is answered 200 has done: the record moves to the target with one more entry in
-- its history, and nothing else of the server changes.
pub record IsAdvanced (alert_id target : String) (body : Dict String Value) (r : AlertRecord)
    (s t : Server) : Type 0 where
  pub allowed : allows r.state target ≡ true
  pub moved : AlertRecord
  pub stored : lookup (text_key alert_id) t.alerts ≡ some moved
  pub state : moved.state ≡ target
  pub history :
      moved.history
      ≡ r.history
        ++ record { to = target; actor = get "actor" body; reason = get "reason" body } ∷ []
  pub kept :
      (moved.alert_id ≡ r.alert_id) × (moved.body ≡ r.body) × (moved.created_at ≡ r.created_at)
  pub others : (k : Key) → k ≢ text_key alert_id → lookup k t.alerts ≡ lookup k s.alerts
  pub rest : t ≡ record s { alerts = t.alerts }

-- A transition to a text either is allowed by the table, and then the record alone moves, with one
-- more entry in its history that names the target, the actor and the reason, or is answered 409 and changes nothing.
pub transition_cases :
    (alert_id target : String) (fs : Fields) (r : AlertRecord) (s : Server)
    → get "target_state" (entries fs) ≡ str target
    → ((transition_record alert_id (obj fs) r s).0 ≡ alert_reply 200 (str alert_id) target)
        × IsAdvanced alert_id target (entries fs) r s (transition_record alert_id (obj fs) r s).1
      ⊎ (allows r.state target ≡ false)
        × (status_of (transition_record alert_id (obj fs) r s).0 ≡ some 409)
        × ((transition_record alert_id (obj fs) r s).1 ≡ s)
unfolding transition_record
transition_cases alert_id target fs r s e = elim (Bool-cases (allows r.state target)) [
  | inl ok ↦ inl (
    rw (e, ok, transition_record) refl,
    record {
      allowed = ok;
      moved = advance target (entries fs) r;
      state = unfold advance in refl;
      history = unfold advance in refl;
      kept = unfold advance in (refl, refl, refl);
      rest = rw (e, ok, transition_record) refl;
      stored =
          rw (e, ok, transition_record)
            (lookup-insert_self (text_key alert_id) (advance target (entries fs) r) s.alerts);
      others = λ k other.
          rw (e, ok, transition_record)
            (lookup-insert_ne (text_key alert_id) k (advance target (entries fs) r) s.alerts
              (λ p. other (sym p)));
    },
  )
  | inr refused ↦
      inr
        (refused, rw (e, refused, transition_record) refl, rw (e, refused, transition_record) refl)
]

-- The lag of a consumer between the two thresholds.
abbrev pub IsBehind : Server → Type 0
IsBehind s = (backpressure_threshold_ms ≤ℤ s.lag_ms) × (leb_ℤ drop_budget_ms s.lag_ms ≡ false)

abbrev pub run_batches : List ℤ → Server → Server
run_batches [] s = s
run_batches (n ∷ ns) s = run_batches ns (batch n s).1

batch-behind :
    (n : ℤ) (s : Server)
    → IsBehind s
    → batch n s ≡ (
      batch_reply n (pos 0) (200 * 2 ^ (s.backoff_count + 1)),
      record s { backoff_count = s.backoff_count + 1 },
    )
unfolding batch
batch-behind n s h = ground arith

add_zero_one : (b : ℕ) → b + 1 ≡ b + 0 + 1
add_zero_one b = omega arith

add_suc_one : (b l : ℕ) → b + suc l + 1 ≡ b + 1 + l + 1
add_suc_one b l = omega arith

-- While the consumer is behind but within the budget nothing is dropped, and each batch asks for
-- twice the pause: after `ns` the next batch is told 200 * 2 ^ (backoff_count + length ns + 1).
pub backoff_doubles :
    (ns : List ℤ) (n : ℤ) (s : Server)
    → IsBehind s
    → ((batch n (run_batches ns s)).0
        ≡ batch_reply n (pos 0) (200 * 2 ^ (s.backoff_count + length ns + 1)))
      × ((batch n (run_batches ns s)).1.dropped_total ≡ s.dropped_total)
backoff_doubles [] n s h = rw (batch-behind n s h) (rw (add_zero_one s.backoff_count) (refl, refl))
backoff_doubles (m ∷ ns) n s h =
    rw (batch-behind m s h, add_suc_one s.backoff_count (length ns))
      (backoff_doubles ns n (record s { backoff_count = s.backoff_count + 1 }) h)

-- A new alert under an id that is in use, with no source_change_id, starts over: whatever record
-- was stored, it is "initial" again with an empty history, and the reply is 202.
pub recreate_resets :
    (env : Ambient) (alert : Dict String Value) (key : Key) (event : Value) (s : Server)
    → truthy (get "alert_id" alert) ≡ true
    → truthy (get "source_change_id" alert) ≡ false
    → key_of (get "alert_id" alert) ≡ some key
    → enriched_event (get "alert_id" alert) alert ≡ some event
    → ((create_from env alert s).0 ≡ alert_reply 202 (get "alert_id" alert) "initial")
      × (lookup key (create_from env alert s).1.alerts
          ≡ some (new_record env (get "alert_id" alert) alert))
unfolding create_from record_alert publish
recreate_resets env alert key event s has_id no_source id_key sent = (
  rw (has_id, no_source, id_key, sent, create_from, record_alert, publish) refl,
  rw (has_id, no_source, id_key, sent, create_from, record_alert, publish)
      (unfold store_alert in
        lookup-insert_self key (new_record env (get "alert_id" alert) alert) s.alerts),
)

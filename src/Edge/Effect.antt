-- ===== src/Edge/Effect.antt =====
-- What a call of the edge service can reply and do to its state, as a step relation, and induction
-- over runs.
use hpa_with_bmad.Base.{
  ℕ, ℤ, String, some, List, [], ◌∷◌, ◌++◌, ◌≡◌, inl, inr, not, ◌&&◌, Dict, lookup, Bool-cases,
  Option-cases, ◌||◌, ◌==◌, string_eq,
}
use hpa_with_bmad.Json.{Value, num, object}
use hpa_with_bmad.Json.Key.{text_key, key_eq}
use hpa_with_bmad.Json.Number.{int_of}
use hpa_with_bmad.Http.{
  Request, Response, query_param, read_body, on_reading_ind, with_object_ind, json, text, aborted,
  failed,
}
use hpa_with_bmad.Edge.{
  Server, Ambient, AlertRecord, max_body_bytes, auth_ok, events_api_key, telemetry_api_key,
}
use hpa_with_bmad.Edge.Envelope.{validate_envelope}
use hpa_with_bmad.Edge.Ingest.{
  reject_or_accept, accept, accept_reply, lag_reply, event_entry, telemetry_batch, batch_body,
  key_for, batch, control_lag, set_lag, get_or_zero,
}
use hpa_with_bmad.Edge.Alerts.{
  create_alert, create_from, transition_alert, transition_record, count_alerts,
}
use hpa_with_bmad.Edge.Service.{
  Call, get_call, post_call, handle, do_get, do_post, transition_id, serve,
}

pub data Effect (s : Server) : Response × Server → Type 0 where
  refused : (status : ℕ) (message : String) → Effect s (failed status message, s)
  gave_up : Effect s (aborted, s)
  shown : (page : String) → Effect s (text 200 page, s)
  counted : (n : ℤ) → Effect s (json 200 (object (("count", num n) ∷ [])), s)
  accepted :
      (env : Ambient) (entry : Value)
      → Effect s (accept_reply env, record s { events_log = s.events_log ++ entry ∷ [] })
  batched : (count : ℤ) → Effect s (batch count s)
  lagged : (lag : ℤ) → Effect s (lag_reply lag, set_lag lag s)
  created : (env : Ambient) (alert : Dict String Value) → Effect s (create_from env alert s)
  moved :
      (alert_id : String) (v : Value) (r : AlertRecord)
      → lookup (text_key alert_id) s.alerts ≡ some r
      → Effect s (transition_record alert_id v r s)

module _ (s : Server) where
  accept-Effect : (env : Ambient) (route : String) (v : Value) → Effect s (accept env route v s)
  unfolding accept
  accept-Effect env route v =
      with_object_ind (Effect s) s v _ gave_up (λ d. accepted env (event_entry env route d))

  reject_or_accept-Effect :
      (env : Ambient) (route : String) (req : Request) → Effect s (reject_or_accept env route req s)
  unfolding reject_or_accept
  reject_or_accept-Effect env route req = elim (Bool-cases (auth_ok (key_for route) req)) [
    | inr e ↦ rw (e, reject_or_accept) (refused 401 "unauthorized")
    | inl e ↦
        rw (e, reject_or_accept)
          (on_reading_ind (Effect s) s (read_body max_body_bytes req) _ (refused 400) λ v.
            elim (Option-cases (validate_envelope v)) [
              | inl valid ↦ rw valid (accept-Effect env route v)
              | inr (m, wrong) ↦ rw wrong (refused 400 m)
            ])
  ]

  batch_body-Effect : (req : Request) → Effect s (batch_body req s)
  unfolding batch_body
  batch_body-Effect req =
      on_reading_ind (Effect s) s (read_body max_body_bytes req) _ (refused 400) λ v.
        with_object_ind (Effect s) s v _ gave_up λ d.
          elim (Option-cases (int_of (get_or_zero "count" d))) [
            | inl e ↦ rw e gave_up
            | inr (n, e) ↦ rw e (batched n)
          ]

  telemetry_batch-Effect : (req : Request) → Effect s (telemetry_batch req s)
  unfolding telemetry_batch
  telemetry_batch-Effect req =
      elim (Bool-cases (not (auth_ok events_api_key req) && not (auth_ok telemetry_api_key req))) [
        | inl e ↦ rw (e, telemetry_batch) (refused 401 "unauthorized")
        | inr e ↦ rw (e, telemetry_batch) (batch_body-Effect req)
      ]

  control_lag-Effect : (req : Request) → Effect s (control_lag req s)
  unfolding control_lag
  control_lag-Effect req = elim (Bool-cases (auth_ok events_api_key req)) [
    | inr e ↦ rw (e, control_lag) (refused 401 "unauthorized")
    | inl e ↦
        rw (e, control_lag)
          (on_reading_ind (Effect s) s (read_body max_body_bytes req) _ (refused 400) λ v.
            with_object_ind (Effect s) s v _ gave_up λ d.
              elim (Option-cases (int_of (get_or_zero "lag_ms" d))) [
                | inl e ↦ rw e gave_up
                | inr (n, e) ↦ rw e (lagged n)
              ])
  ]

  create_alert-Effect : (env : Ambient) (req : Request) → Effect s (create_alert env req s)
  unfolding create_alert
  create_alert-Effect env req = elim (Bool-cases (auth_ok events_api_key req)) [
    | inr e ↦ rw (e, create_alert) (refused 401 "unauthorized")
    | inl e ↦
        rw (e, create_alert)
          (on_reading_ind (Effect s) s (read_body max_body_bytes req) _ (refused 400)
            λ v. with_object_ind (Effect s) s v _ gave_up λ d. created env d)
  ]

  transition_alert-Effect : (id : String) (req : Request) → Effect s (transition_alert id req s)
  unfolding transition_alert
  transition_alert-Effect id req = elim (Bool-cases (auth_ok events_api_key req)) [
    | inr e ↦ rw (e, transition_alert) (refused 401 "unauthorized")
    | inl e ↦
        rw (e, transition_alert)
          (on_reading_ind (Effect s) s (read_body max_body_bytes req) _ (refused 400) λ v.
            elim (Option-cases (lookup (text_key id) s.alerts)) [
              | inl e ↦ rw e (refused 404 "alert not found")
              | inr (r, e) ↦ rw e (moved id v r e)
            ])
  ]

  count_alerts-Effect : (req : Request) → Effect s (count_alerts req s)
  unfolding count_alerts
  count_alerts-Effect req = elim (Option-cases (query_param req "source_change_id")) [
    | inl e ↦ rw (e, count_alerts) (refused 400 "source_change_id is required")
    | inr (source, e) ↦ rw (e, count_alerts) (counted _)
  ]

  get-Effect : (req : Request) → Effect s (do_get req s)
  unfolding do_get
  get-Effect req = elim (Bool-cases (req.path == "/metrics")) [
    | inl e ↦ rw (e, do_get) (shown _)
    | inr e ↦ elim (Bool-cases (req.path == "/alerts")) [
      | inl e' ↦ rw (e, e', do_get) (count_alerts-Effect req)
      | inr e' ↦ rw (e, e', do_get) (refused 404 "not found")
    ]
  ]

  post-Effect : (env : Ambient) (req : Request) → Effect s (do_post env req s)
  unfolding do_post
  post-Effect env req = elim (Bool-cases (req.path == "/events" || req.path == "/telemetry")) [
    | inl a ↦ rw (a, do_post) (reject_or_accept-Effect env req.path req)
    | inr a ↦ elim (Bool-cases (req.path == "/telemetry/batch")) [
      | inl b ↦ rw (a, b, do_post) (telemetry_batch-Effect req)
      | inr b ↦ elim (Bool-cases (req.path == "/control/lag")) [
        | inl c ↦ rw (a, b, c, do_post) (control_lag-Effect req)
        | inr c ↦ elim (Bool-cases (req.path == "/alerts")) [
          | inl d ↦ rw (a, b, c, d, do_post) (create_alert-Effect env req)
          | inr d ↦ elim (Option-cases (transition_id req.path)) [
            | inl e ↦ rw (a, b, c, d, e, do_post) (refused 404 "not found")
            | inr (id, e) ↦ rw (a, b, c, d, e, do_post) (transition_alert-Effect id req)
          ]
        ]
      ]
    ]
  ]

-- Whatever the call, the state moves by one step of the relation.
pub handle-Effect : (c : Call) (s : Server) → Effect s (handle c s)
unfolding handle
handle-Effect (get_call req) s = get-Effect s req
handle-Effect (post_call env req) s = post-Effect s env req

-- What every step keeps, every run keeps.
pub serve_induction {ℓ} :
    (P : Server → Type ℓ)
    → ((s : Server) (result : Response × Server) → Effect s result → P s → P result.1)
    → (calls : List Call) (s : Server) → P s
    → P (serve calls s)
unfolding serve
serve_induction P keep [] s h = h
serve_induction P keep (c ∷ cs) s h =
    serve_induction P keep cs (handle c s).1 (keep s (handle c s) (handle-Effect c s) h)

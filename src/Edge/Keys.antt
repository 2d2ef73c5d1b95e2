-- ===== src/Edge/Keys.antt =====
-- The idempotency keys of events-ingest.py: which calls keep them.
use hpa_with_bmad.Base.{
  String, Option, none, some, List, ◌≡◌, inl, inr, Dict, lookup, lookup-insert, Bool-cases,
  Option-cases, arith, string_eq, ==_iff,
}
use hpa_with_bmad.Json.{Value, get, truthy}
use hpa_with_bmad.Json.Key.{Key, key_of, key_eq}
use hpa_with_bmad.Http.{Response, with_object_ind}
use hpa_with_bmad.Edge.{Server, Ambient, AlertRecord}
use hpa_with_bmad.Edge.Ingest.{batch, set_lag}
use hpa_with_bmad.Edge.Alerts.{create_from, store_alert, record_alert, transition_record}
use hpa_with_bmad.Edge.Service.{Call, serve}
use hpa_with_bmad.Edge.Effect.{
  Effect, refused, gave_up, shown, counted, accepted, batched, lagged, created, moved,
  serve_induction,
}
use hpa_with_bmad.Edge.Invariant.{
  IsWellFormed, Effect-IsWellFormed, idempotency-publish, repeat_alert-state,
}

abbrev pub Holds : Key → Value → Server → Type 0
Holds k v s = lookup k s.idempotency ≡ some v

-- What the optional key of a new alert must satisfy: it is not used yet.
abbrev pub IsFresh : Option Key → Server → Type 0
IsFresh none s = Unit
IsFresh (some source) s = lookup source s.idempotency ≡ none

module _ (k : Key) (v : Value) (s : Server) (h : Holds k v s) where
  store-Holds :
      (env : Ambient) (alert_id : Value) (key : Key) (source : Option Key)
      (alert : Dict String Value)
      → IsFresh source s
      → Holds k v (store_alert env alert_id key source alert s)
  unfolding store_alert
  store-Holds env alert_id key none alert fresh = h
  store-Holds env alert_id key (some source) alert fresh =
      ground (arith, lookup-insert source k alert_id s.idempotency, ==_iff source k)

  record-Holds :
      (env : Ambient) (alert_id : Value) (source : Option Key) (alert : Dict String Value)
      → IsFresh source s
      → Holds k v (record_alert env alert_id source alert s).1
  unfolding record_alert
  record-Holds env alert_id source alert fresh = elim (Option-cases (key_of alert_id)) [
    | inl e ↦ rw (e, record_alert) h
    | inr (key, e) ↦
        rw (e, record_alert)
          (rw idempotency-publish (store-Holds env alert_id key source alert fresh))
  ]

  pub create-Holds :
      (env : Ambient) (alert : Dict String Value) → Holds k v (create_from env alert s).1
  unfolding create_from
  create-Holds env alert = elim (Bool-cases (truthy (get "alert_id" alert))) [
    | inr e ↦ rw (e, create_from) h
    | inl e ↦ elim (Bool-cases (truthy (get "source_change_id" alert))) [
      | inr e' ↦ rw (e, e', create_from) (record-Holds env _ none alert tt)
      | inl e' ↦ elim (Option-cases (key_of (get "source_change_id" alert))) [
        | inl n ↦ rw (e, e', n, create_from) h
        | inr (source, n) ↦ elim (Option-cases (lookup source s.idempotency)) [
          | inl fresh ↦
              rw (e, e', n, fresh, create_from) (record-Holds env _ (some source) alert fresh)
          | inr (original, seen) ↦ rw (e, e', n, seen, create_from) (rw repeat_alert-state h)
        ]
      ]
    ]
  ]

  transition-Holds :
      (alert_id : String) (w : Value) (r : AlertRecord)
      → Holds k v (transition_record alert_id w r s).1
  unfolding transition_record
  transition-Holds alert_id w r =
      with_object_ind (λ result. Holds k v result.1) s w _ h λ body. ground arith

-- No step forgets or changes an idempotency key.
Effect-Holds :
    (k : Key) (v : Value) (s : Server) (t : Response × Server)
    → Effect s t
    → Holds k v s
    → Holds k v t.1
Effect-Holds k v s t (refused n m) h = h
Effect-Holds k v s t gave_up h = h
Effect-Holds k v s t (shown page) h = h
Effect-Holds k v s t (counted n) h = h
Effect-Holds k v s t (accepted env entry) h = h
Effect-Holds k v s t (batched n) h = unfold batch in ground arith
Effect-Holds k v s t (lagged n) h = unfold set_lag in ground arith
Effect-Holds k v s t (created env alert) h = create-Holds k v s h env alert
Effect-Holds k v s t (moved id w r e) h = transition-Holds k v s h id w r

pub serve-Holds :
    (k : Key) (v : Value) (calls : List Call) (s : Server) → Holds k v s → Holds k v (serve calls s)
serve-Holds k v calls s h = serve_induction (Holds k v) (Effect-Holds k v) calls s h

pub serve-keeps-IsWellFormed :
    (calls : List Call) (s : Server) → IsWellFormed s → IsWellFormed (serve calls s)
serve-keeps-IsWellFormed calls s w = serve_induction IsWellFormed Effect-IsWellFormed calls s w

-- ===== src/Edge/Idempotency.antt =====
-- Exactly-once creation of alerts: what a source_change_id guarantees, and where it does not.
use hpa_with_bmad.Base.{
  ℕ, lookup-insert_self, String, true, none, some, List, ◌≡◌, ◌≢◌, refl, inl, inr, Dict, lookup,
  Option-cases, arith, string_eq,
}
use hpa_with_bmad.Json.{Value, get, truthy}
use hpa_with_bmad.Json.Key.{Key, key_of, key_eq}
use hpa_with_bmad.Http.{aborted, status_of}
use hpa_with_bmad.Edge.{Server, Ambient, init}
use hpa_with_bmad.Edge.Alerts.{
  create_from, store_alert, publish, record_alert, repeat_alert, enriched_event, alert_reply,
}
use hpa_with_bmad.Edge.Service.{Call, serve}
use hpa_with_bmad.Edge.Effect.{created}
use hpa_with_bmad.Edge.Invariant.{
  IsWellFormed, Effect-IsWellFormed, serve-IsWellFormed, idempotency-publish,
}
use hpa_with_bmad.Edge.Keys.{Holds, create-Holds, serve-Holds, serve-keeps-IsWellFormed}

same_status :
    (m n : ℕ) (v : Value) (state : String)
    → some m ≡ some n
    → alert_reply m v state ≡ alert_reply n v state
same_status m n v state e = ground arith

-- An alert that `_create_alert` takes, and its two keys.
pub record IsKeyed (alert : Dict String Value) (source : Key) : Type 0 where
  pub has_id : truthy (get "alert_id" alert) ≡ true
  pub has_source : truthy (get "source_change_id" alert) ≡ true
  pub source_key : key_of (get "source_change_id" alert) ≡ some source

module _ (env : Ambient) (alert : Dict String Value) (source : Key) (keyed : IsKeyed alert source)
    (s : Server) where
  -- A key that is known: the reply names the original alert, and nothing changes.
  repeat_known :
      (original : Value)
      → IsWellFormed s
      → Holds source original s
      → (state : String) × (create_from env alert s ≡ (alert_reply 200 original state, s))
  unfolding create_from repeat_alert
  repeat_known original w known =
      let (a, r, ka, found) = w.resolved source original known in
      (
        r.state,
        rw
            (
              keyed.has_id, keyed.has_source, keyed.source_key, known, ka, found, create_from,
              repeat_alert,
            )
            refl,
      )

  -- A key that is new is bound to the alert's id, also where the event cannot be built.
  fresh_Holds :
      (key : Key)
      → key_of (get "alert_id" alert) ≡ some key
      → lookup source s.idempotency ≡ none
      → Holds source (get "alert_id" alert) (create_from env alert s).1
  unfolding create_from record_alert
  fresh_Holds key id_key fresh =
      rw
        (keyed.has_id, keyed.has_source, keyed.source_key, fresh, id_key, create_from, record_alert)
        (rw idempotency-publish
          (unfold store_alert in lookup-insert_self source (get "alert_id" alert) s.idempotency))

  -- A reply to a fresh key is 202 and names the alert's own id.
  fresh_reply :
      (n : ℕ) (key : Key)
      → key_of (get "alert_id" alert) ≡ some key
      → lookup source s.idempotency ≡ none
      → status_of (create_from env alert s).0 ≡ some n
      → (create_from env alert s).0 ≡ alert_reply n (get "alert_id" alert) "initial"
  unfolding create_from record_alert publish
  fresh_reply n key id_key fresh replied =
      elim (Option-cases (enriched_event (get "alert_id" alert) alert)) [
        | inl lost ↦ cc (
            rw
              (
                keyed.has_id, keyed.has_source, keyed.source_key, fresh, id_key, lost, create_from,
                record_alert, publish,
              )
              at replied)
        | inr (event, sent) ↦
            let is_202 : some 202 ≡ some n =
              rw
                (
                  keyed.has_id, keyed.has_source, keyed.source_key, fresh, id_key, sent,
                  create_from, record_alert, publish,
                )
                at replied in
            rw
              (
                keyed.has_id, keyed.has_source, keyed.source_key, fresh, id_key, sent, create_from,
                record_alert, publish,
              )
              (same_status 202 n (get "alert_id" alert) "initial" is_202)
      ]

  unhashable_id :
      (n : ℕ)
      → key_of (get "alert_id" alert) ≡ none
      → lookup source s.idempotency ≡ none
      → status_of (create_from env alert s).0 ≢ some n
  unfolding create_from record_alert
  unhashable_id n bad fresh replied = cc (
      rw (keyed.has_id, keyed.has_source, keyed.source_key, fresh, bad, create_from, record_alert)
        at replied)

  known_reply :
      (n : ℕ) (original : Value)
      → IsWellFormed s
      → Holds source original s
      → status_of (create_from env alert s).0 ≡ some n
      → (state : String) × ((create_from env alert s).0 ≡ alert_reply n original state)
  known_reply n original w known replied =
      let (state, e) = repeat_known original w known in
      let is_200 : some 200 ≡ some n = rw e at replied in
      (state, rw e (same_status 200 n original state is_200))

  -- Whatever the reply, it names an alert, and the key is bound to that alert afterwards.
  replied_Holds :
      (n : ℕ)
      → IsWellFormed s
      → status_of (create_from env alert s).0 ≡ some n
      → (original : Value) × (state : String) × ((create_from env alert s).0
          ≡ alert_reply n original state)
        × Holds source original (create_from env alert s).1
  replied_Holds n w replied = elim (Option-cases (lookup source s.idempotency)) [
    | inr (original, known) ↦
        let (state, e) = known_reply n original w known replied in
        (original, state, e, create-Holds source original s known env alert)
    | inl fresh ↦ elim (Option-cases (key_of (get "alert_id" alert))) [
      | inr (key, id_key) ↦ (
        get "alert_id" alert,
        "initial",
        fresh_reply n key id_key fresh replied,
        fresh_Holds key id_key fresh,
      )
      | inl bad ↦ absurd (unhashable_id n bad fresh replied)
    ]
  ]

-- If a creation with a source_change_id got a reply from a running service, every later creation
-- with that key, however many calls lie between, is answered 200 with the alert id of that reply,
-- and it changes nothing.
pub create_once :
    (before later : List Call) (env env' : Ambient) (alert alert' : Dict String Value)
    (source : Key) (n : ℕ)
    → IsKeyed alert source
    → IsKeyed alert' source
    → status_of (create_from env alert (serve before init)).0 ≡ some n
    → (original : Value) × (state state' : String) × ((create_from env alert (serve before init)).0
        ≡ alert_reply n original state)
      × (create_from env' alert' (serve later (create_from env alert (serve before init)).1) ≡ (
        alert_reply 200 original state',
        serve later (create_from env alert (serve before init)).1,
      ))
create_once before later env env' alert alert' source n keyed keyed' replied =
    let s = serve before init in
    let t = (create_from env alert s).1 in
    let w : IsWellFormed t =
      Effect-IsWellFormed s (create_from env alert s) (created env alert)
        (serve-IsWellFormed before) in
    let (original, state, reply, bound) =
      replied_Holds env alert source keyed s n (serve-IsWellFormed before) replied in
    let (state', repeated) =
      repeat_known env' alert' source keyed' (serve later t) original
        (serve-keeps-IsWellFormed later t w) (serve-Holds source original later t bound) in
    (original, state, state', reply, repeated)

module _ (env : Ambient) (alert : Dict String Value) (source key : Key) (s : Server)
    (keyed : IsKeyed alert source) (id_key : key_of (get "alert_id" alert) ≡ some key)
    (fresh : lookup source s.idempotency ≡ none)
    (lost : enriched_event (get "alert_id" alert) alert ≡ none) where
  lost_reply : (create_from env alert s).0 ≡ aborted
  unfolding create_from record_alert publish
  lost_reply = rw (
    keyed.has_id, keyed.has_source, keyed.source_key, fresh, id_key, lost, create_from,
    record_alert, publish,
  )

  lost_topic : (create_from env alert s).1.incoming_topic ≡ s.incoming_topic
  unfolding create_from record_alert publish store_alert
  lost_topic = rw (
    keyed.has_id, keyed.has_source, keyed.source_key, fresh, id_key, lost, create_from,
    record_alert, publish,
  )

-- An alert with a fresh key whose event cannot be built (its device_id is a list or a dictionary, or
-- its metadata is true and no dictionary) gets no reply and reaches no topic, and yet its key is
-- used up: a repetition, whenever it comes, is answered 200 and changes nothing.
pub create_lost :
    (before later : List Call) (env env' : Ambient) (alert : Dict String Value) (source key : Key)
    → IsKeyed alert source
    → key_of (get "alert_id" alert) ≡ some key
    → lookup source (serve before init).idempotency ≡ none
    → enriched_event (get "alert_id" alert) alert ≡ none
    → (state : String) × ((create_from env alert (serve before init)).0 ≡ aborted)
      × ((create_from env alert (serve before init)).1.incoming_topic
          ≡ (serve before init).incoming_topic)
      × (create_from env' alert (serve later (create_from env alert (serve before init)).1) ≡ (
        alert_reply 200 (get "alert_id" alert) state,
        serve later (create_from env alert (serve before init)).1,
      ))
create_lost before later env env' alert source key keyed id_key fresh lost =
    let s = serve before init in
    let t = (create_from env alert s).1 in
    let w : IsWellFormed t =
      Effect-IsWellFormed s (create_from env alert s) (created env alert)
        (serve-IsWellFormed before) in
    let bound : Holds source (get "alert_id" alert) t =
      fresh_Holds env alert source keyed s key id_key fresh in
    let (state, repeated) =
      repeat_known env' alert source keyed (serve later t) (get "alert_id" alert)
        (serve-keeps-IsWellFormed later t w)
        (serve-Holds source (get "alert_id" alert) later t bound) in
    (
      state,
      lost_reply env alert source key s keyed id_key fresh lost,
      lost_topic env alert source key s keyed id_key fresh lost,
      repeated,
    )

-- ===== src/Edge/Invariant.antt =====
-- The invariant of the edge service's alert tables.
use hpa_with_bmad.Base.{
  String, true, false, Option, none, some, List, [], ◌∷◌, ◌++◌, ◌≡◌, refl, inl, inr, Dict, lookup,
  insert, lookup-insert, lookup-insert_self, Bool-cases, Option-cases, arith, ◌==◌, string_eq,
}
use hpa_with_bmad.Json.{Value, null, bool, num, str, arr, obj, get, truthy}
use hpa_with_bmad.Json.Key.{Key, text_key, key_of, key_eq}
use hpa_with_bmad.Http.{Response, with_object_ind}
use hpa_with_bmad.Edge.{Server, Ambient, AlertRecord, Change, init, allows}
use hpa_with_bmad.Edge.Ingest.{batch, set_lag}
use hpa_with_bmad.Edge.Alerts.{
  create_from, store_alert, publish, record_alert, repeat_alert, transition_record, advance,
  allowed_target, target_text, new_record,
}
use hpa_with_bmad.Edge.Service.{Call, serve}
use hpa_with_bmad.Edge.Effect.{
  Effect, refused, gave_up, shown, counted, accepted, batched, lagged, created, moved,
  serve_induction,
}

-- The changes lead from one state to the other, each along an allowed transition.
abbrev pub Follows : String → List Change → String → Type 0
Follows s [] t = s ≡ t
Follows s (c ∷ cs) t = (allows s c.to ≡ true) × Follows c.to cs t

Follows-concat :
    (s t : String) (cs : List Change) (c : Change)
    → Follows s cs t
    → allows t c.to ≡ true
    → Follows s (cs ++ c ∷ []) c.to
Follows-concat s t [] c h ok = (rw h ok, refl)
Follows-concat s t (b ∷ cs) c (h, rest) ok = (h, Follows-concat b.to t cs c rest ok)

-- Each record's state is the end of its history; each idempotency key leads to a stored alert.
pub record IsWellFormed (s : Server) : Type 0 where
  pub lawful :
      (k : Key) (r : AlertRecord) → lookup k s.alerts ≡ some r → Follows "initial" r.history r.state
  pub resolved :
      (k : Key) (v : Value)
      → lookup k s.idempotency ≡ some v
      → (a : Key) × (r : AlertRecord) × (key_of v ≡ some a) × (lookup a s.alerts ≡ some r)

-- The invariant speaks of two tables only.
same_tables :
    (s t : Server)
    → t.alerts ≡ s.alerts
    → t.idempotency ≡ s.idempotency
    → IsWellFormed s
    → IsWellFormed t
same_tables s t ea ei w = record {
  lawful = λ k r h. w.lawful k r (rw (← ea) h);
  resolved =
      λ k v h. let (a, r, ka, found) = w.resolved k v (rw (← ei) h) in (a, r, ka, rw ea found);
}

store-lawful :
    (env : Ambient) (alert_id : Value) (key : Key) (source : Option Key) (alert : Dict String Value)
    (s : Server)
    → IsWellFormed s
    → (k : Key) (r : AlertRecord)
    → lookup k (store_alert env alert_id key source alert s).alerts ≡ some r
    → Follows "initial" r.history r.state
unfolding store_alert
store-lawful env alert_id key source alert s w k r h = elim (Bool-cases (key == k)) [
  | inl same ↦
      let e : new_record env alert_id alert ≡ r =
        ground (arith, lookup-insert key k (new_record env alert_id alert) s.alerts) in
      rw (← e) refl
  | inr other ↦
      w.lawful k r (ground (arith, lookup-insert key k (new_record env alert_id alert) s.alerts))
]

-- A write leaves every key that was there with a record.
store-kept :
    (env : Ambient) (alert_id : Value) (key : Key) (source : Option Key) (alert : Dict String Value)
    (s : Server) (a : Key) (r : AlertRecord)
    → lookup a s.alerts ≡ some r
    → (r' : AlertRecord) × (lookup a (store_alert env alert_id key source alert s).alerts ≡ some r')
unfolding store_alert
store-kept env alert_id key source alert s a r h = elim (Bool-cases (key == a)) [
  | inl same ↦ (
    new_record env alert_id alert,
    ground (arith, lookup-insert key a (new_record env alert_id alert) s.alerts),
  )
  | inr other ↦ (r, ground (arith, lookup-insert key a (new_record env alert_id alert) s.alerts))
]

new_key :
    (source : Key) (alert_id : Value) (s : Server) (k : Key) (v : Value) {key : Key}
    → (source == k) ≡ true
    → lookup k (insert source alert_id s.idempotency) ≡ some v
    → key_of alert_id ≡ some key
    → key_of v ≡ some key
new_key source alert_id s k v same h e =
    ground (arith, lookup-insert source k alert_id s.idempotency)

old_key :
    (source : Key) (alert_id : Value) (s : Server) (k : Key) (v : Value)
    → (source == k) ≡ false
    → lookup k (insert source alert_id s.idempotency) ≡ some v
    → lookup k s.idempotency ≡ some v
old_key source alert_id s k v other h =
    ground (arith, lookup-insert source k alert_id s.idempotency)

module _ (alert_id : Value) (alert : Dict String Value) (s : Server) where
  pub alerts-publish : (publish alert_id alert s).1.alerts ≡ s.alerts
  unfolding publish
  alerts-publish = ground arith

  pub idempotency-publish : (publish alert_id alert s).1.idempotency ≡ s.idempotency
  unfolding publish
  idempotency-publish = ground arith

pub repeat_alert-state : (original : Value) (s : Server) → (repeat_alert original s).1 ≡ s
unfolding repeat_alert
repeat_alert-state original s = ground arith

store-IsWellFormed :
    (env : Ambient) (alert_id : Value) (key : Key) (source : Option Key) (alert : Dict String Value)
    (s : Server)
    → key_of alert_id ≡ some key
    → IsWellFormed s
    → IsWellFormed (store_alert env alert_id key source alert s)
store-IsWellFormed env alert_id key none alert s e w = record {
  lawful = store-lawful env alert_id key none alert s w;
  resolved = λ k v h.
      let (a, r, ka, found) = w.resolved k v (unfold store_alert in h) in
      let (r', found') = store-kept env alert_id key none alert s a r found in (a, r', ka, found');
}
store-IsWellFormed env alert_id key (some source) alert s e w = record {
  lawful = store-lawful env alert_id key (some source) alert s w;
  resolved = λ k v h. elim (Bool-cases (source == k)) [
    | inl same ↦ (
      key,
      new_record env alert_id alert,
      new_key source alert_id s k v same (unfold store_alert in h) e,
      unfold store_alert in lookup-insert_self key (new_record env alert_id alert) s.alerts,
    )
    | inr other ↦
        let (a, r, ka, found) =
          w.resolved k v (old_key source alert_id s k v other (unfold store_alert in h)) in
        let (r', found') = store-kept env alert_id key (some source) alert s a r found in
        (a, r', ka, found')
  ];
}

record-IsWellFormed :
    (env : Ambient) (alert_id : Value) (source : Option Key) (alert : Dict String Value)
    (s : Server)
    → IsWellFormed s
    → IsWellFormed (record_alert env alert_id source alert s).1
unfolding record_alert
record-IsWellFormed env alert_id source alert s w = elim (Option-cases (key_of alert_id)) [
  | inl e ↦ rw (e, record_alert) w
  | inr (key, e) ↦
      let t = store_alert env alert_id key source alert s in
      rw (e, record_alert)
        (same_tables t (publish alert_id alert t).1 (alerts-publish alert_id alert t)
          (idempotency-publish alert_id alert t)
          (store-IsWellFormed env alert_id key source alert s e w))
]

create-IsWellFormed :
    (env : Ambient) (alert : Dict String Value) (s : Server)
    → IsWellFormed s
    → IsWellFormed (create_from env alert s).1
unfolding create_from
create-IsWellFormed env alert s w = elim (Bool-cases (truthy (get "alert_id" alert))) [
  | inr e ↦ rw (e, create_from) w
  | inl e ↦ elim (Bool-cases (truthy (get "source_change_id" alert))) [
    | inr e' ↦ rw (e, e', create_from) (record-IsWellFormed env _ none alert s w)
    | inl e' ↦ elim (Option-cases (key_of (get "source_change_id" alert))) [
      | inl n ↦ rw (e, e', n, create_from) w
      | inr (source, n) ↦ elim (Option-cases (lookup source s.idempotency)) [
        | inl fresh ↦
            rw (e, e', n, fresh, create_from) (record-IsWellFormed env _ (some source) alert s w)
        | inr (original, seen) ↦ rw (e, e', n, seen, create_from) (rw repeat_alert-state w)
      ]
    ]
  ]
]

-- The records after a transition of `alert_id`, which had the record `r`.
moved-lawful :
    (alert_id : String) (body : Dict String Value) (r : AlertRecord) (s : Server)
    → IsWellFormed s
    → lookup (text_key alert_id) s.alerts ≡ some r
    → (v : Value) → allowed_target r.state v ≡ true
    → IsWellFormed
        (record s { alerts = insert (text_key alert_id) (advance (target_text v) body r) s.alerts })
moved-lawful alert_id body r s w found (str target) ok = record {
  lawful = λ k q h. elim (Bool-cases (text_key alert_id == k)) [
    | inl same ↦
        let e : advance target body r ≡ q =
          ground (arith, lookup-insert (text_key alert_id) k (advance target body r) s.alerts) in
        rw (← e) (
          unfold advance in
          Follows-concat "initial" r.state r.history _ (w.lawful (text_key alert_id) r found) ok)
    | inr other ↦
        w.lawful k q
          (ground (arith, lookup-insert (text_key alert_id) k (advance target body r) s.alerts))
  ];
  resolved = λ k q h.
      let (a, p, ka, there) = w.resolved k q h in
      elim (Bool-cases (text_key alert_id == a)) [
        | inl same ↦ (
          a,
          advance target body r,
          ka,
          ground (arith, lookup-insert (text_key alert_id) a (advance target body r) s.alerts),
        )
        | inr other ↦ (
          a,
          p,
          ka,
          ground (arith, lookup-insert (text_key alert_id) a (advance target body r) s.alerts),
        )
      ];
}
moved-lawful alert_id body r s w found null ok = cc
moved-lawful alert_id body r s w found (bool _) ok = cc
moved-lawful alert_id body r s w found (num _) ok = cc
moved-lawful alert_id body r s w found (arr _) ok = cc
moved-lawful alert_id body r s w found (obj _) ok = cc

transition-IsWellFormed :
    (alert_id : String) (v : Value) (r : AlertRecord) (s : Server)
    → lookup (text_key alert_id) s.alerts ≡ some r
    → IsWellFormed s
    → IsWellFormed (transition_record alert_id v r s).1
unfolding transition_record
transition-IsWellFormed alert_id v r s found w =
    with_object_ind (λ result. IsWellFormed result.1) s v _ w
      λ body. elim (Bool-cases (allowed_target r.state (get "target_state" body))) [
        | inl ok ↦ rw ok (moved-lawful alert_id body r s w found _ ok)
        | inr no_way ↦ rw no_way w
      ]

-- Every step of the service keeps the invariant.
pub Effect-IsWellFormed :
    (s : Server) (result : Response × Server)
    → Effect s result
    → IsWellFormed s
    → IsWellFormed result.1
Effect-IsWellFormed s t (refused n m) w = w
Effect-IsWellFormed s t gave_up w = w
Effect-IsWellFormed s t (shown page) w = w
Effect-IsWellFormed s t (counted n) w = w
Effect-IsWellFormed s t (accepted env entry) w = same_tables s t.1 refl refl w
Effect-IsWellFormed s t (batched n) w =
    same_tables s t.1 (unfold batch in ground arith) (unfold batch in ground arith) w
Effect-IsWellFormed s t (lagged n) w =
    same_tables s t.1 (unfold set_lag in ground arith) (unfold set_lag in ground arith) w
Effect-IsWellFormed s t (created env alert) w = create-IsWellFormed env alert s w
Effect-IsWellFormed s t (moved id v r e) w = transition-IsWellFormed id v r s e w

init-IsWellFormed : IsWellFormed init
unfolding lookup
init-IsWellFormed = record { lawful = λ k r h. cc; resolved = λ k v h. cc }

-- After any calls to a fresh service, each alert's state is the end of its history of allowed
-- transitions from "initial", and each idempotency key leads to a stored alert.
pub serve-IsWellFormed : (calls : List Call) → IsWellFormed (serve calls init)
serve-IsWellFormed calls =
    serve_induction IsWellFormed Effect-IsWellFormed calls init init-IsWellFormed

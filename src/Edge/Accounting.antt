-- ===== src/Edge/Accounting.antt =====
-- The drop metric of the edge service against what its replies report.
use hpa_with_bmad.Base.{
  ℤ, pos, ◌+ℤ◌, leb_ℤ, String, Option, none, some, List, [], ◌∷◌, ◌≡◌, refl, ◌∙◌, +ℤ_assoc,
  if◌then◌else◌, arith, int_laws, Dict, lookup, string_eq, Bool-cases, Option-cases, inl, inr,
}
use hpa_with_bmad.Json.{Value, num, obj, entries, get, truthy}
use hpa_with_bmad.Json.Key.{Key, key_of, key_eq}
use hpa_with_bmad.Http.{Response, json, with_object_ind}
use hpa_with_bmad.Edge.{Server, Ambient, AlertRecord, drop_budget_ms}
use hpa_with_bmad.Edge.Ingest.{batch, set_lag}
use hpa_with_bmad.Edge.Alerts.{
  create_from, store_alert, publish, record_alert, repeat_alert, transition_record,
}
use hpa_with_bmad.Edge.Service.{Call, handle, serve}
use hpa_with_bmad.Edge.Effect.{
  Effect, refused, gave_up, shown, counted, accepted, batched, lagged, created, moved,
  handle-Effect,
}

-- What one field of a reply's body says of dropped messages: the number that a batch lost, and one
-- message for an injected lag over the budget.
abbrev pub over_budget : ℤ → ℤ
over_budget lag = if leb_ℤ drop_budget_ms lag then pos 1 else pos 0

abbrev from_lag : Option Value → ℤ
from_lag (some (num n)) = over_budget n
from_lag _ = pos 0

abbrev from_dropped : Option Value → ℤ → ℤ
from_dropped (some (num n)) other = n
from_dropped _ other = other

-- The dropped messages that a client reads off a reply.
pub observed : Response → ℤ
unfolding lookup
observed (json status (obj fs)) =
    from_dropped (lookup "dropped" (entries fs)) (from_lag (lookup "lag_ms" (entries fs)))
observed _ = pos 0

record Quiet (s : Server) (result : Response × Server) : Type 0 where
  same : result.1.dropped_total ≡ s.dropped_total
  silent : observed result.0 ≡ pos 0

module _ (s : Server) where
  publish-Quiet : (v : Value) (alert : Dict String Value) → Quiet s (publish v alert s)
  unfolding publish observed
  publish-Quiet v alert = ground arith

  repeat-Quiet : (v : Value) → Quiet s (repeat_alert v s)
  unfolding repeat_alert observed
  repeat-Quiet v = ground arith

  transition-Quiet :
      (alert_id : String) (v : Value) (r : AlertRecord) → Quiet s (transition_record alert_id v r s)
  unfolding transition_record observed
  transition-Quiet alert_id v r =
      with_object_ind (Quiet s) s v _ (record { same = refl; silent = refl }) λ d. ground arith

record-Quiet :
    (env : Ambient) (v : Value) (source : Option Key) (alert : Dict String Value) (s : Server)
    → Quiet s (record_alert env v source alert s)
unfolding record_alert observed store_alert
record-Quiet env v source alert s = elim (Option-cases (key_of v)) [
  | inl e ↦ rw (e, record_alert) (record { same = refl; silent = refl })
  | inr (key, e) ↦
      let q = publish-Quiet (store_alert env v key source alert s) v alert in
      rw (e, record_alert) (record { same = q.same; silent = q.silent })
]

create-Quiet :
    (env : Ambient) (alert : Dict String Value) (s : Server) → Quiet s (create_from env alert s)
unfolding create_from observed
create-Quiet env alert s = elim (Bool-cases (truthy (get "alert_id" alert))) [
  | inr e ↦ rw (e, create_from) (record { same = refl; silent = refl })
  | inl e ↦ elim (Bool-cases (truthy (get "source_change_id" alert))) [
    | inr e' ↦ rw (e, e', create_from) (record-Quiet env _ none alert s)
    | inl e' ↦ elim (Option-cases (key_of (get "source_change_id" alert))) [
      | inl n ↦ rw (e, e', n, create_from) (record { same = refl; silent = refl })
      | inr (source, n) ↦ elim (Option-cases (lookup source s.idempotency)) [
        | inl fresh ↦ rw (e, e', n, fresh, create_from) (record-Quiet env _ (some source) alert s)
        | inr (original, seen) ↦ rw (e, e', n, seen, create_from) (repeat-Quiet s original)
      ]
    ]
  ]
]

abbrev IsCounted : Server → Response × Server → Type 0
IsCounted s result = result.1.dropped_total ≡ s.dropped_total +ℤ observed result.0

add_nothing : (a : ℤ) → a ≡ a +ℤ pos 0
add_nothing a = omega int_laws

Quiet-IsCounted : (s : Server) (result : Response × Server) → Quiet s result → IsCounted s result
Quiet-IsCounted s result q = rw (q.same, q.silent) (add_nothing s.dropped_total)

batch-IsCounted : (n : ℤ) (s : Server) → IsCounted s (batch n s)
unfolding batch observed
batch-IsCounted n s = ground (arith, add_nothing s.dropped_total)

Effect-IsCounted : (s : Server) (result : Response × Server) → Effect s result → IsCounted s result
unfolding observed
Effect-IsCounted s r (refused n m) = add_nothing s.dropped_total
Effect-IsCounted s r gave_up = add_nothing s.dropped_total
Effect-IsCounted s r (shown page) = add_nothing s.dropped_total
Effect-IsCounted s r (counted n) = add_nothing s.dropped_total
Effect-IsCounted s r (accepted env entry) = add_nothing s.dropped_total
Effect-IsCounted s r (batched n) = batch-IsCounted n s
Effect-IsCounted s r (lagged lag) = unfold set_lag in ground (arith, add_nothing s.dropped_total)
Effect-IsCounted s r (created env alert) = Quiet-IsCounted s r (create-Quiet env alert s)
Effect-IsCounted s r (moved id v q e) = Quiet-IsCounted s r (transition-Quiet s id v q)

-- The dropped messages that the clients of a run read off their replies.
pub total_observed : List Call → Server → ℤ
total_observed [] s = pos 0
total_observed (c ∷ cs) s = observed (handle c s).0 +ℤ total_observed cs (handle c s).1

add_later : (a b c d : ℤ) → b ≡ a +ℤ c → b +ℤ d ≡ a +ℤ (c +ℤ d)
add_later a b c d h = rw h (+ℤ_assoc a c d)

-- The metric is exact: over any run it grows by what the replies report, that is, by the messages
-- that batches lost and by one for each injected lag over the budget.
pub dropped-serve :
    (calls : List Call) (s : Server)
    → (serve calls s).dropped_total ≡ s.dropped_total +ℤ total_observed calls s
unfolding serve total_observed
dropped-serve [] s = add_nothing s.dropped_total
dropped-serve (c ∷ cs) s =
    dropped-serve cs (handle c s).1
    ∙ add_later s.dropped_total (handle c s).1.dropped_total (observed (handle c s).0)
        (total_observed cs (handle c s).1) (Effect-IsCounted s (handle c s) (handle-Effect c s))

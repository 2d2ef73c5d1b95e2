-- ===== src/ChangeProcessor/Step.antt =====
-- What one run of entity-change-processor.py can do to the logs.
use hpa_with_bmad.Base.{
  String, false, [], ◌∷◌, ◌++◌, ◌≡◌, inl, inr, Dict, string_eq, Bool-cases, if_ind, any, ltb_ℤ,
}
use hpa_with_bmad.Json.{Value, null, bool, num, str, arr, obj, entries, get, truthy, is_text}
use hpa_with_bmad.Http.{Body, malformed, document}
use hpa_with_bmad.ChangeProcessor.{
  FeedSpec, Logs, Run, code, Exit, is_processed, budget, entry, bury, react, process_event,
  process_body, process,
}

-- What a run can do: nothing, one line in the dead letter queue, or one line for an event that is not
-- processed yet.
pub data Step (spec : FeedSpec) (s : Logs) : Exit × Logs → Type 0 where
  idle : (x : Exit) → Step spec s (x, s)
  buries :
      (run : Run) (event : Dict String Value) (result : String)
      → Step spec s (bury spec run event result s)
  processes :
      (run : Run) (event : Dict String Value)
      → is_processed (get "source_change_id" event) s.processed ≡ false
      → Step spec s
          (code 0, record s { processed = s.processed ++ entry spec run event "processed" ∷ [] })

react-Step :
    (spec : FeedSpec) (run : Run) (event : Dict String Value) (s : Logs)
    → is_processed (get "source_change_id" event) s.processed ≡ false
    → Step spec s (react spec run event s)
unfolding react
react-Step spec run event s fresh =
    if_ind (λ r. Step spec s r) run.force_failure _ _ (buries run event "failed")
      (if_ind (λ r. Step spec s r) (ltb_ℤ (budget spec) run.latency_ms) _ _
        (buries run event "budget_exceeded") (processes run event fresh))

process_event-Step :
    (spec : FeedSpec) (run : Run) (event : Dict String Value) (s : Logs)
    → Step spec s (process_event spec run event s)
unfolding process_event
process_event-Step spec run event s =
    elim (Bool-cases (any (λ t. is_text t (get "source" event)) spec.sources)) [
      | inr a ↦ rw (a, process_event) (idle _)
      | inl a ↦ elim (Bool-cases (truthy (get "source_change_id" event))) [
        | inr b ↦ rw (a, b, process_event) (idle _)
        | inl b ↦ elim (Bool-cases (is_processed (get "source_change_id" event) s.processed)) [
          | inl c ↦ rw (a, b, c, process_event) (idle _)
          | inr c ↦ rw (a, b, c, process_event) (react-Step spec run event s c)
        ]
      ]
    ]

body-Step :
    (spec : FeedSpec) (run : Run) (b : Body) (s : Logs) → Step spec s (process_body spec run b s)
unfolding process_body
body-Step spec run (malformed _) s = idle _
body-Step spec run (document (obj fs)) s = process_event-Step spec run (entries fs) s
body-Step spec run (document null) s = idle _
body-Step spec run (document (bool _)) s = idle _
body-Step spec run (document (num _)) s = idle _
body-Step spec run (document (str _)) s = idle _
body-Step spec run (document (arr _)) s = idle _

pub process-Step : (spec : FeedSpec) (run : Run) (s : Logs) → Step spec s (process spec run s)
unfolding process
process-Step spec run s = body-Step spec run run.event_json s

-- ===== src/ChangeProcessor/Redelivery.antt =====
-- What a repeated delivery of a change does.
use hpa_with_bmad.Base.{
  String, true, false, List, [], ◌∷◌, ◌++◌, ◌≡◌, inl, inr, refl, arith, eq_iff, Dict, lookup,
  string_eq, Bool-cases, if_ind, ◌||◌, if◌then◌else◌, ◌≢◌, any, ◌==◌, ltb_ℤ,
}
use hpa_with_bmad.Json.{Value, str, obj, Fields, entries, get, is_text}
use hpa_with_bmad.Json.Equality.{same_value}
use hpa_with_bmad.Http.{Body, document}
use hpa_with_bmad.ChangeProcessor.{
  FeedSpec, Logs, Run, code, Exit, is_processed, budget, entry, react, process_event, process_body,
  process, process_all,
}
use hpa_with_bmad.ChangeProcessor.Step.{Step, idle, buries, processes, process-Step}

is_processed-append :
    (id : Value) (log : List (Dict String Value)) (line : Dict String Value)
    → is_processed id (log ++ line ∷ [])
      ≡ (is_processed id log || same_value (get "source_change_id" line) id)
unfolding is_processed
is_processed-append id [] line = ground arith
is_processed-append id (l ∷ log) line = ground (arith, is_processed-append id log line)

Step-is_processed :
    (spec : FeedSpec) (id : Value) (s : Logs) (result : Exit × Logs)
    → Step spec s result
    → is_processed id s.processed ≡ true
    → is_processed id result.1.processed ≡ true
Step-is_processed spec id s _ (idle x) h = h
Step-is_processed spec id s _ (buries run event result) h = h
Step-is_processed spec id s _ (processes run event fresh) h = rw (is_processed-append, h) refl

stays_processed :
    (spec : FeedSpec) (id : Value) (rs : List Run) (s : Logs)
    → is_processed id s.processed ≡ true
    → is_processed id (process_all spec rs s).processed ≡ true
stays_processed spec id [] s h = h
stays_processed spec id (r ∷ rs) s h =
    stays_processed spec id rs (process spec r s).1
      (Step-is_processed spec id s (process spec r s) (process-Step spec r s) h)

-- An event of a known source with a text as its id.
pub record IsEvent (spec : FeedSpec) (run : Run) (fs : Fields) (id : String) : Type 0 where
  pub sent : run.event_json ≡ document (obj fs)
  pub known : any (λ t. is_text t (get "source" (entries fs))) spec.sources ≡ true
  pub named : get "source_change_id" (entries fs) ≡ str id
  pub filled : (id == "") ≡ false

body-event :
    (spec : FeedSpec) (run : Run) (b : Body) (fs : Fields) (id : String) (s : Logs)
    → IsEvent spec run fs id
    → b ≡ document (obj fs)
    → process_body spec run b s
      ≡ (if is_processed (str id) s.processed then (code 0, s) else react spec run (entries fs) s)
unfolding process_body process_event
body-event spec run b fs id s w sent =
    rw (sent, process_body, process_event, w.known, w.named, w.filled) refl

process-event :
    (spec : FeedSpec) (run : Run) (fs : Fields) (id : String) (s : Logs)
    → IsEvent spec run fs id
    → process spec run s
      ≡ (if is_processed (str id) s.processed then (code 0, s) else react spec run (entries fs) s)
unfolding process
process-event spec run fs id s w = body-event spec run run.event_json fs id s w w.sent

abbrev IsDone : String → Exit × Logs → Type 0
IsDone id r = r.0 ≡ code 0 → is_processed (str id) r.1.processed ≡ true

same_value_self : (id : String) → same_value (str id) (str id) ≡ true
unfolding same_value
same_value_self id = (eq_iff id id).1 refl

entry_done :
    (spec : FeedSpec) (run : Run) (event : Dict String Value) (id : String) (s : Logs)
    → get "source_change_id" event ≡ str id
    → is_processed (str id) (s.processed ++ entry spec run event "processed" ∷ []) ≡ true
unfolding entry lookup
entry_done spec run event id s named =
    let same : same_value (get "source_change_id" event) (str id) ≡ true =
      rw named (same_value_self id) in
    rw (is_processed-append, same) (ground arith)

react-IsDone :
    (spec : FeedSpec) (run : Run) (event : Dict String Value) (id : String) (s : Logs)
    → get "source_change_id" event ≡ str id
    → IsDone id (react spec run event s)
unfolding react
react-IsDone spec run event id s named =
    if_ind (IsDone id) run.force_failure _ _ (λ h. absurd (ground arith))
      (if_ind (IsDone id) (ltb_ℤ (budget spec) run.latency_ms) _ _ (λ h. absurd (ground arith))
        (λ h. entry_done spec run event id s named))

process-IsDone :
    (spec : FeedSpec) (run : Run) (fs : Fields) (id : String) (s : Logs)
    → IsEvent spec run fs id
    → IsDone id (process spec run s)
process-IsDone spec run fs id s w =
    rw (process-event spec run fs id s w) (elim (Bool-cases (is_processed (str id) s.processed)) [
      | inl old ↦ rw old (λ h. old)
      | inr new ↦ rw new (react-IsDone spec run (entries fs) id s w.named)
    ])

-- Once a delivery of an event from a known source, with a text that is not empty as its id, ended with
-- exit code 0, every later delivery from a known source with that id, whatever runs lie between and
-- whatever else the event says, ends with 0 and changes nothing, even one that is forced to fail.
pub redelivery_ignored :
    (spec : FeedSpec) (run again : Run) (fs gs : Fields) (id : String) (later : List Run) (s : Logs)
    → IsEvent spec run fs id
    → IsEvent spec again gs id
    → (process spec run s).0 ≡ code 0
    → process spec again (process_all spec later (process spec run s).1)
      ≡ (code 0, process_all spec later (process spec run s).1)
redelivery_ignored spec run again fs gs id later s w w' h =
    let known =
      stays_processed spec (str id) later (process spec run s).1
        (process-IsDone spec run fs id s w h) in
    rw (process-event spec again gs id (process_all spec later (process spec run s).1) w', known)
      refl

abbrev KeepsProcessed : Logs → Exit × Logs → Type 0
KeepsProcessed s r = r.0 ≢ code 0 → r.1.processed ≡ s.processed

failed_keeps :
    (spec : FeedSpec) (run : Run) (event : Dict String Value) (s : Logs)
    → KeepsProcessed s (react spec run event s)
unfolding react
failed_keeps spec run event s =
    if_ind (KeepsProcessed s) run.force_failure _ _ (λ h. refl)
      (if_ind (KeepsProcessed s) (ltb_ℤ (budget spec) run.latency_ms) _ _ (λ h. refl)
        (λ h. absurd (h refl)))

in_time :
    (spec : FeedSpec) (run : Run) (event : Dict String Value) (s : Logs)
    → run.force_failure ≡ false
    → ltb_ℤ (budget spec) run.latency_ms ≡ false
    → react spec run event s
      ≡ (code 0, record s { processed = s.processed ++ entry spec run event "processed" ∷ [] })
unfolding react
in_time spec run event s ok soon = simp (react, ok, soon)

-- A delivery of an event that was never processed, and that fails, does not use up its id: the next
-- delivery of an event with that id, if it is not forced to fail and keeps the time budget, ends with
-- 0 and adds exactly its line to the processed log as it was before both.
pub failure_retried :
    (spec : FeedSpec) (run again : Run) (fs gs : Fields) (id : String) (s : Logs)
    → IsEvent spec run fs id
    → IsEvent spec again gs id
    → is_processed (str id) s.processed ≡ false
    → (process spec run s).0 ≢ code 0
    → again.force_failure ≡ false
    → ltb_ℤ (budget spec) again.latency_ms ≡ false
    → ((process spec again (process spec run s).1).0 ≡ code 0)
      × ((process spec again (process spec run s).1).1.processed
          ≡ s.processed ++ entry spec again (entries gs) "processed" ∷ [])
failure_retried spec run again fs gs id s w w' fresh failed ok soon =
    let first : process spec run s ≡ react spec run (entries fs) s =
      rw (process-event spec run fs id s w, fresh) refl in
    let kept : (process spec run s).1.processed ≡ s.processed =
      rw first (failed_keeps spec run (entries fs) s (rw first at failed)) in
    let still_fresh : is_processed (str id) (process spec run s).1.processed ≡ false =
      rw kept fresh in
    rw
      (
        process-event spec again gs id (process spec run s).1 w',
        still_fresh,
        in_time spec again (entries gs) (process spec run s).1 ok soon,
        kept,
      )
      (refl, refl)

-- ===== src/ChangeProcessor.antt =====
-- scripts/services/entity-change-processor.py: a change event is processed once, or goes to the dead
-- letter queue.
pub mod Step
pub mod Once
pub mod Redelivery
pub mod Tests
use hpa_with_bmad.Base.{
  ℕ, ℤ, pos, String, Bool, true, false, Option, none, some, List, [], ◌∷◌, ◌++◌, if◌then◌else◌, not,
  Dict, lookup, string_eq, any, ltb_ℤ,
}
use hpa_with_bmad.Json.{Value, bool, num, str, end, obj, get, truthy, is_text, as_object}
use hpa_with_bmad.Json.Equality.{same_value}
use hpa_with_bmad.Http.{Body, malformed, document}

-- The spec of the EntityChangeFeed; `none` is a time that the file leaves out.
pub record FeedSpec : Type 0 where
  pub sources : List String
  pub reaction_time_ms : Option ℤ

-- processed.ndjson and dead_letter.ndjson, oldest line first
pub record Logs : Type 0 where
  pub processed : List (Dict String Value)
  pub dead_letter : List (Dict String Value)

-- What one run is given: its two arguments, the clock and the random identifier.
pub record Run : Type 0 where
  pub event_json : Body
  pub force_failure : Bool
  pub latency_ms : ℤ
  pub now : String
  pub uuid : String

-- `raised`: an exception that is not caught
pub data Exit : Type 0 where
  code : ℕ → Exit
  raised : Exit

-- `is_processed`
unfoldable pub is_processed : Value → List (Dict String Value) → Bool
is_processed id log = any (λ line. same_value (get "source_change_id" line) id) log

unfoldable pub budget : FeedSpec → ℤ
budget spec = elim spec.reaction_time_ms [ none ↦ pos 500 | some n ↦ n ]

-- `event.get("change", {})`
unfoldable pub change_of : Dict String Value → Value
change_of event = elim (lookup "change" event) [ none ↦ obj end | some v ↦ v ]

-- `entry`, with its result
unfoldable pub entry : FeedSpec → Run → Dict String Value → String → Dict String Value
unfolding budget change_of
entry spec run event result =
    ("source_change_id", get "source_change_id" event)
    ∷ ("source", get "source" event)
    ∷ ("entity_id", get "entity_id" event)
    ∷ ("change", change_of event)
    ∷ ("processing", str "knative+restate")
    ∷ ("exactly_once", bool true)
    ∷ ("reaction_latency_ms", num run.latency_ms)
    ∷ ("reaction_budget_ms", num (budget spec))
    ∷ ("timestamp", str run.now)
    ∷ ("correlation_id", str run.uuid)
    ∷ ("result", str result)
    ∷ []

abbrev pub bury : FeedSpec → Run → Dict String Value → String → Logs → Exit × Logs
bury spec run event result s =
    (code 1, record s { dead_letter = s.dead_letter ++ entry spec run event result ∷ [] })

-- From `int(feed_spec.get("reaction_time_ms", 500))` on.
unfoldable pub react : FeedSpec → Run → Dict String Value → Logs → Exit × Logs
react spec run event s =
    if run.force_failure
    then bury spec run event "failed" s
    else if ltb_ℤ (budget spec) run.latency_ms
    then bury spec run event "budget_exceeded" s
    else (code 0, record s { processed = s.processed ++ entry spec run event "processed" ∷ [] })

-- `process` of an event that is a dictionary
unfoldable pub process_event : FeedSpec → Run → Dict String Value → Logs → Exit × Logs
process_event spec run event s =
    if not (any (λ t. is_text t (get "source" event)) spec.sources)
    then (code 1, s)
    else if not (truthy (get "source_change_id" event))
    then (code 1, s)
    else if is_processed (get "source_change_id" event) s.processed
    then (code 0, s)
    else react spec run event s

-- `process` of what `json.loads` makes of the argument
unfoldable pub process_body : FeedSpec → Run → Body → Logs → Exit × Logs
process_body spec run (malformed _) s = (code 1, s)
process_body spec run (document v) s = elim (as_object v) [
  | none ↦ (raised, s)
  | some event ↦ process_event spec run event s
]

-- `process`
unfoldable pub process : FeedSpec → Run → Logs → Exit × Logs
process spec run s = process_body spec run run.event_json s

abbrev pub init : Logs
init = record { processed = []; dead_letter = [] }

-- Runs one after another.
abbrev pub process_all : FeedSpec → List Run → Logs → Logs
process_all spec [] s = s
process_all spec (r ∷ rs) s = process_all spec rs (process spec r s).1

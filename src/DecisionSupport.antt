-- ===== src/DecisionSupport.antt =====
-- scripts/services/alert-decision-support.py: recommendations for alerts, and their approval. A
-- confidence is counted in hundredths, which all confidences of the code are.
pub mod Gate
pub mod Tests
use hpa_with_bmad.Base.{
  ℕ, String, Bool, true, false, Option, none, some, List, [], ◌∷◌, ◌++◌, if◌then◌else◌, not, ◌&&◌,
  Dict, lookup, string_eq, ◌==◌, any, leb,
}
use hpa_with_bmad.Json.{Value, end, obj, get, is_text, as_object}
use hpa_with_bmad.Http.{Body, malformed, document}

-- The spec of the definition file; `none` is a threshold that the file leaves out.
pub record Config : Type 0 where
  pub required_for : List String
  pub auto_execute_threshold : Option ℕ
  pub sensitive_action_policy : Value
  pub approvers : List String

-- gitops/alerts/base/llm-decision-support.yaml; the policy, which no decision reads, is an argument
abbrev pub shipped : Value → Config
shipped policy = record {
  required_for =
      "restart_deployment" ∷ "scale_deployment" ∷ "delete_pod" ∷ "increase_hpa_target" ∷ [];
  auto_execute_threshold = some 85;
  sensitive_action_policy = policy;
  approvers = "alice@hpdc" ∷ "carol@hpdc" ∷ [];
}

-- A line of decisions.ndjson.
pub record Decision : Type 0 where
  pub recommendation_id : String
  pub alert_id : Value
  pub action : String
  pub confidence : ℕ
  pub sensitive : Bool
  pub decision : String
  pub input_context : Value
  pub auto_execute_threshold : ℕ
  pub sensitive_action_policy : Value
  pub timestamp : String

-- A line of approvals.ndjson; only a refusal has a reason.
pub record Approval : Type 0 where
  pub recommendation_id : String
  pub actor : String
  pub approved : Bool
  pub reason : Option String
  pub timestamp : String

pub record Logs : Type 0 where
  pub decisions : List Decision
  pub approvals : List Approval

-- `raised`: an exception that is not caught
pub data Exit : Type 0 where
  code : ℕ → Exit
  raised : Exit

-- `score_recommendation`
unfoldable pub score_recommendation : Dict String Value → String × ℕ
score_recommendation alert =
    let alert_type = get "alert_type" alert in
    let confidence = if is_text "critical" (get "severity" alert) then 90 else 70 in
    if is_text "service_down" alert_type
    then ("restart_deployment", confidence)
    else if is_text "memory_pressure" alert_type
    then ("increase_hpa_target", confidence)
    else if is_text "node_unreachable" alert_type
    then ("delete_pod", confidence)
    else ("notify_with_context", 40)

abbrev pub member : String → List String → Bool
member s names = any (λ n. n == s) names

unfoldable pub threshold : Config → ℕ
threshold config = elim config.auto_execute_threshold [ none ↦ 85 | some n ↦ n ]

-- `decision`, from the recommendation
unfoldable pub decide : Config → String → ℕ → String
decide config action confidence =
    if not (member action config.required_for) && leb (threshold config) confidence
    then "execute"
    else "pending_approval"

-- `alert.get("context", {})`
unfoldable pub context_of : Dict String Value → Value
context_of alert = elim (lookup "context" alert) [ none ↦ obj end | some v ↦ v ]

-- `entry`, with the random identifier and the clock
unfoldable pub decision_line : Config → String → String → Dict String Value → Decision
unfolding threshold
decision_line config uuid now alert =
    let (action, confidence) = score_recommendation alert in
    record {
      recommendation_id = uuid;
      alert_id = get "alert_id" alert;
      action = action;
      confidence = confidence;
      sensitive = member action config.required_for;
      decision = decide config action confidence;
      input_context = context_of alert;
      auto_execute_threshold = threshold config;
      sensitive_action_policy = config.sensitive_action_policy;
      timestamp = now;
    }

-- `recommend`
unfoldable pub recommend : Config → String → String → Body → Logs → Exit × Logs
recommend config uuid now (malformed _) s = (code 1, s)
recommend config uuid now (document v) s = elim (as_object v) [
  | none ↦ (raised, s)
  | some alert ↦
      (code 0, record s { decisions = s.decisions ++ decision_line config uuid now alert ∷ [] })
]

-- `approve`
unfoldable pub approve : Config → String → String → String → Logs → Exit × Logs
approve config id actor now s =
    if not (member actor config.approvers)
    then (
      code 403,
      record s {
        approvals =
            s.approvals
            ++ record {
              recommendation_id = id;
              actor = actor;
              approved = false;
              reason = some "unauthorized";
              timestamp = now;
            }
              ∷ [];
      },
    )
    else (
      code 0,
      record s {
        approvals =
            s.approvals
            ++ record {
              recommendation_id = id;
              actor = actor;
              approved = true;
              reason = none;
              timestamp = now;
            }
              ∷ [];
      },
    )

-- One run of the command line.
pub data Command : Type 0 where
  recommend_command : (uuid now : String) → Body → Command
  approve_command : (id actor now : String) → Command

abbrev pub execute : Config → Command → Logs → Exit × Logs
execute config (recommend_command uuid now b) s = recommend config uuid now b s
execute config (approve_command id actor now) s = approve config id actor now s

abbrev pub execute_all : Config → List Command → Logs → Logs
execute_all config [] s = s
execute_all config (c ∷ cs) s = execute_all config cs (execute config c s).1

abbrev pub init : Logs
init = record { decisions = []; approvals = [] }

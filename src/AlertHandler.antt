-- ===== src/AlertHandler.antt =====
-- scripts/services/alert-handler.py: human actions on alerts, with a state log and an audit log.
pub mod Shipped
pub mod Audit
pub mod Frozen
mod Tests
use hpa_with_bmad.Base.{
  ℕ, String, Bool, true, false, Option, none, some, List, [], ◌∷◌, ◌++◌, if◌then◌else◌, not, ◌&&◌,
  Dict, lookup, string_eq, ◌==◌, any, ◌+++◌,
}

-- One action of the specification; a list that the file leaves out is empty, and `to` may be left
-- out.
pub record ActionDef : Type 0 where
  pub from_states : List String
  pub to : Option String
  pub requires_reason : Bool
  pub roles : List String

-- What `load_actions` returns.
pub record ActionsSpec : Type 0 where
  pub users : Dict String String
  pub actions : Dict String ActionDef

-- A line of state.ndjson.
pub record StateEntry : Type 0 where
  pub alert_id : String
  pub state : String
  pub updated_at : String

-- A line of audit.ndjson; `none` is a key that the line does not have.
pub record AuditEntry : Type 0 where
  pub alert_id : String
  pub actor : String
  pub action : String
  pub state_before : String
  pub state_after : String
  pub timestamp : String
  pub result : String
  pub error : Option String
  pub reason : Option (Option String)
  pub correlation_id : Option String

-- The two files.
pub record Logs : Type 0 where
  pub state_log : List StateEntry
  pub audit_log : List AuditEntry

pub record Arguments : Type 0 where
  pub action : String
  pub alert_id : String
  pub actor : String
  pub reason : Option String

-- The clock and the random identifier of one run.
pub record Moment : Type 0 where
  pub now : String
  pub uuid : String

abbrev pub mem : String → List String → Bool
mem s l = any (λ t. t == s) l

-- The loop of `load_alert_state`: it returns at the first line that has the id.
unfoldable pub find_state : String → List StateEntry → Option StateEntry
find_state alert_id [] = none
find_state alert_id (e ∷ es) = if e.alert_id == alert_id then some e else find_state alert_id es

abbrev pub load_alert_state : String → Logs → Option StateEntry
load_alert_state alert_id logs = find_state alert_id logs.state_log

abbrev pub save_alert_state : String → String → String → Logs → Logs
save_alert_state alert_id state updated_at logs = record logs {
  state_log =
      logs.state_log ++ record { alert_id = alert_id; state = state; updated_at = updated_at } ∷ [];
}

abbrev pub record_audit : AuditEntry → Logs → Logs
record_audit e logs = record logs { audit_log = logs.audit_log ++ e ∷ [] }

abbrev pub get_actor_role : ActionsSpec → String → Option String
get_actor_role spec actor = lookup actor spec.users

-- `actions_spec.get("actions", {}).get(action, {}).get("roles", [])`
abbrev pub action_roles : ActionsSpec → String → List String
action_roles spec action = elim (lookup action spec.actions) [ none ↦ [] | some def ↦ def.roles ]

unfoldable pub is_authorized : ActionsSpec → String → String → Bool
is_authorized spec action actor = elim (get_actor_role spec actor) [
  | none ↦ false
  | some role ↦ mem role (action_roles spec action)
]

-- What `validate_transition` returns, or the text of its ValueError.
pub data Verdict : Type 0 where
  goes : String → Verdict
  wrong : String → Verdict

abbrev or_initial : String → String
or_initial state = if state == "" then "initial" else state

abbrev pub target : ActionDef → String → String
target def current = elim def.to [ none ↦ current | some to ↦ to ]

unfoldable pub validate_transition : ActionsSpec → String → String → Verdict
validate_transition spec action current_state = elim (lookup action spec.actions) [
  | none ↦ wrong ("unknown action: " +++ action)
  | some def ↦
      let current = or_initial current_state in
      if mem current def.from_states
      then goes (target def current)
      else wrong (
          "invalid transition: "
          +++ current
          +++ " -> "
          +++ target def current
          +++ " via "
          +++ action)
]

abbrev pub needs_reason : ActionsSpec → String → Bool
needs_reason spec action = elim (lookup action spec.actions) [
  | none ↦ false
  | some def ↦ def.requires_reason
]

-- `args.reason` is neither None nor empty
abbrev pub has_reason : Option String → Bool
has_reason none = false
has_reason (some r) = not (r == "")

abbrev pub given_reason : Option String → Option String
given_reason none = none
given_reason (some r) = if r == "" then none else some r

abbrev pub state_of : Option StateEntry → String
state_of none = "initial"
state_of (some e) = e.state

-- The line of a refused action.
abbrev pub refusal : Moment → Arguments → String → String → Option String → AuditEntry
refusal m args current result error = record {
  alert_id = args.alert_id;
  actor = args.actor;
  action = args.action;
  state_before = current;
  state_after = current;
  timestamp = m.now;
  result = result;
  error = error;
  reason = none;
  correlation_id = none;
}

abbrev pub acceptance : Moment → Arguments → String → String → AuditEntry
acceptance m args current to_state = record {
  alert_id = args.alert_id;
  actor = args.actor;
  action = args.action;
  state_before = current;
  state_after = to_state;
  timestamp = m.now;
  result = "success";
  error = none;
  reason = some (given_reason args.reason);
  correlation_id = some m.uuid;
}

-- `handle_action` past the authorization: the transition, the reason, the two writes.
unfoldable pub apply_verdict : ActionsSpec → Moment → Arguments → String → Verdict → Logs → ℕ × Logs
apply_verdict spec m args current (wrong message) logs =
    (409, record_audit (refusal m args current "invalid_transition" (some message)) logs)
apply_verdict spec m args current (goes to_state) logs =
    if needs_reason spec args.action && not (has_reason args.reason)
    then (400, record_audit (refusal m args current "missing_reason" none) logs)
    else (
      0,
      record_audit (acceptance m args current to_state)
          (save_alert_state args.alert_id to_state m.now logs),
    )

-- `handle_action`: the exit status and the files afterwards.
unfoldable pub handle_action : ActionsSpec → Moment → Arguments → Logs → ℕ × Logs
unfolding apply_verdict
handle_action spec m args logs =
    let current = state_of (load_alert_state args.alert_id logs) in
    if is_authorized spec args.action args.actor
    then apply_verdict spec m args current (validate_transition spec args.action current) logs
    else (403, record_audit (refusal m args current "unauthorized" none) logs)

-- Actions one after another.
unfoldable pub run : ActionsSpec → List (Moment × Arguments) → Logs → Logs
unfolding handle_action
run spec [] logs = logs
run spec ((m, args) ∷ rest) logs = run spec rest (handle_action spec m args logs).1

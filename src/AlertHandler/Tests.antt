-- ===== src/AlertHandler/Tests.antt =====
-- Runs of the alert handler under the shipped specification, and its theorems at concrete inputs.
use hpa_with_bmad.Base.{String, some, [], ◌∷◌, ◌≡◌, ◌≢◌, ◌⊎◌, refl, lookup, string_eq}
use hpa_with_bmad.AlertHandler.{
  StateEntry, Logs, Arguments, Moment, load_alert_state, find_state, state_of, is_authorized,
  validate_transition, handle_action, run,
}
use hpa_with_bmad.AlertHandler.Audit.{Accepted, Refused, handle_action_cases}
use hpa_with_bmad.AlertHandler.Frozen.{run-frozen, note_freezes}
use hpa_with_bmad.AlertHandler.Shipped.{shipped_spec}

abbrev empty_logs : Logs
empty_logs = record { state_log = []; audit_log = [] }

abbrev moment : Moment
moment = record { now = "2026-08-01T00:00:00+00:00"; uuid = "u" }

abbrev step : String → String → Arguments
step action actor = record {
  action = action;
  alert_id = "a1";
  actor = actor;
  reason = some "fixed";
}

abbrev after_two : Logs
after_two =
    run shipped_spec
      ((moment, step "acknowledge" "alice@hpdc") ∷ (moment, step "investigate" "bob@hpdc") ∷ [])
      empty_logs

-- The newest line says "investigating", and the handler goes on from "acknowledged".
stale_state : state_of (load_alert_state "a1" after_two) ≡ "acknowledged"
unfolding run is_authorized validate_transition lookup find_state
stale_state = refl

-- The second investigation is accepted again.
investigates_twice :
    (handle_action shipped_spec moment (step "investigate" "bob@hpdc") after_two).0 ≡ 0
unfolding handle_action run is_authorized validate_transition lookup find_state
investigates_twice = refl

handle_action_cases_example :
    Accepted shipped_spec moment
      (step "close" "dave@hpdc")
      empty_logs
      (handle_action shipped_spec moment (step "close" "dave@hpdc") empty_logs)
    ⊎ Refused moment
        (step "close" "dave@hpdc")
        empty_logs
        (handle_action shipped_spec moment (step "close" "dave@hpdc") empty_logs)
handle_action_cases_example =
    handle_action_cases shipped_spec moment (step "close" "dave@hpdc") empty_logs

abbrev acknowledged : StateEntry
acknowledged = record { alert_id = "a1"; state = "acknowledged"; updated_at = moment.now }

abbrev acknowledged_logs : Logs
acknowledged_logs = record { state_log = acknowledged ∷ []; audit_log = [] }

run-frozen_example :
    load_alert_state "a1"
      (run shipped_spec ((moment, step "resolve" "bob@hpdc") ∷ []) acknowledged_logs)
    ≡ some acknowledged
run-frozen_example =
    run-frozen shipped_spec ((moment, step "resolve" "bob@hpdc") ∷ []) "a1" acknowledged
      acknowledged_logs (unfold find_state in refl)

note_freezes_example :
    (handle_action shipped_spec moment (step "close" "carol@hpdc") (
      run shipped_spec
        ((moment, step "acknowledge" "alice@hpdc") ∷ [])
        (handle_action shipped_spec moment (step "add_note" "dave@hpdc") empty_logs).1)).0
    ≢ 0
note_freezes_example =
    note_freezes moment moment (step "add_note" "dave@hpdc") (step "close" "carol@hpdc") empty_logs
      ((moment, step "acknowledge" "alice@hpdc") ∷ []) refl refl (unfold find_state in refl)
      (unfold handle_action is_authorized validate_transition lookup find_state in refl)

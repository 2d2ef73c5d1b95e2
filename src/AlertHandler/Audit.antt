-- ===== src/AlertHandler/Audit.antt =====
-- What the audit log of the alert handler shows.
use hpa_with_bmad.Base.{
  ℕ, String, true, false, Option, none, some, [], ◌∷◌, ◌++◌, ◌≡◌, ◌≢◌, refl, ◌⊎◌, inl, inr, not,
  ◌&&◌, string_eq, arith, eq_iff, Bool-cases, Option-cases,
}
use hpa_with_bmad.AlertHandler.{
  ActionsSpec, Logs, Arguments, Moment, Verdict, goes, wrong, mem, load_alert_state, state_of,
  action_roles, get_actor_role, is_authorized, validate_transition, needs_reason, has_reason,
  given_reason, apply_verdict, handle_action,
}

-- What holds of an action that was carried out.
pub record IsPermitted (spec : ActionsSpec) (args : Arguments) (current to_state : String)
    : Type 0 where
  pub authorized :
      (role : String) × (get_actor_role spec args.actor ≡ some role)
      × (mem role (action_roles spec args.action) ≡ true)
  pub valid : validate_transition spec args.action current ≡ goes to_state
  pub explained : (needs_reason spec args.action ≡ false) ⊎ (has_reason args.reason ≡ true)

-- The two ways in which a run of the handler ends.
pub record Accepted (spec : ActionsSpec) (m : Moment) (args : Arguments) (logs : Logs)
    (result : ℕ × Logs) : Type 0 where
  pub to_state : String
  pub permitted : IsPermitted spec args (state_of (load_alert_state args.alert_id logs)) to_state
  pub status : result.0 ≡ 0
  pub states :
      result.1.state_log
      ≡ logs.state_log
        ++ record { alert_id = args.alert_id; state = to_state; updated_at = m.now } ∷ []
  pub audited :
      result.1.audit_log
      ≡ logs.audit_log
        ++ record {
          alert_id = args.alert_id;
          actor = args.actor;
          action = args.action;
          state_before = state_of (load_alert_state args.alert_id logs);
          state_after = to_state;
          timestamp = m.now;
          result = "success";
          error = none;
          reason = some (given_reason args.reason);
          correlation_id = some m.uuid;
        }
          ∷ []

pub record Refused (m : Moment) (args : Arguments) (logs : Logs) (result : ℕ × Logs) : Type 0 where
  pub outcome : String
  pub error : Option String
  pub status :
      ((result.0 ≡ 403) × (outcome ≡ "unauthorized"))
      ⊎ ((result.0 ≡ 409) × (outcome ≡ "invalid_transition"))
      ⊎ ((result.0 ≡ 400) × (outcome ≡ "missing_reason"))
  pub failure : outcome ≢ "success"
  pub states : result.1.state_log ≡ logs.state_log
  pub audited :
      result.1.audit_log
      ≡ logs.audit_log
        ++ record {
          alert_id = args.alert_id;
          actor = args.actor;
          action = args.action;
          state_before = state_of (load_alert_state args.alert_id logs);
          state_after = state_of (load_alert_state args.alert_id logs);
          timestamp = m.now;
          result = outcome;
          error = error;
          reason = none;
          correlation_id = none;
        }
          ∷ []

module _ (spec : ActionsSpec) (m : Moment) (args : Arguments) (logs : Logs) where
  authorized_role :
      is_authorized spec args.action args.actor ≡ true
      → (role : String) × (get_actor_role spec args.actor ≡ some role)
        × (mem role (action_roles spec args.action) ≡ true)
  unfolding is_authorized
  authorized_role h = elim (Option-cases (get_actor_role spec args.actor)) [
    | inl e ↦ cc (rw (e, is_authorized) at h)
    | inr (role, e) ↦ (role, e, rw (e, is_authorized) at h)
  ]

  explained_or :
      (needs_reason spec args.action && not (has_reason args.reason)) ≡ false
      → (needs_reason spec args.action ≡ false) ⊎ (has_reason args.reason ≡ true)
  explained_or h = ground arith

  verdict_cases :
      is_authorized spec args.action args.actor ≡ true
      → (v : Verdict)
      → validate_transition spec args.action (state_of (load_alert_state args.alert_id logs)) ≡ v
      → Accepted spec m args logs
          (apply_verdict spec m args (state_of (load_alert_state args.alert_id logs)) v logs)
        ⊎ Refused m args logs
            (apply_verdict spec m args (state_of (load_alert_state args.alert_id logs)) v logs)
  unfolding apply_verdict
  verdict_cases a (wrong message) e = inr (record {
    outcome = "invalid_transition";
    error = some message;
    status = inr (inl (refl, refl));
    failure = ground (arith, eq_iff "invalid_transition" "success");
    states = refl;
    audited = refl;
  })
  verdict_cases a (goes to_state) e =
      elim (Bool-cases (needs_reason spec args.action && not (has_reason args.reason))) [
        | inl lacking ↦
            rw (lacking, apply_verdict)
              (inr (record {
                outcome = "missing_reason";
                error = none;
                status = inr (inr (refl, refl));
                failure = ground (arith, eq_iff "missing_reason" "success");
                states = refl;
                audited = refl;
              }))
        | inr fine ↦
            rw (fine, apply_verdict)
              (inl (record {
                to_state = to_state;
                permitted = record {
                  authorized = authorized_role a;
                  valid = e;
                  explained = explained_or fine;
                };
                status = refl;
                states = refl;
                audited = refl;
              }))
      ]

  -- Every run adds exactly one line to the audit log. A run that returns 0 was authorized, its
  -- transition was valid from the loaded state and had its reason, and the state log gets one line.
  -- Any other run returns 403, 409 or 400, leaves the state log alone, and its audit line shows no
  -- change of state and the outcome "unauthorized", "invalid_transition" or "missing_reason" in turn.
  pub handle_action_cases :
      Accepted spec m args logs (handle_action spec m args logs)
      ⊎ Refused m args logs (handle_action spec m args logs)
  unfolding handle_action
  handle_action_cases = elim (Bool-cases (is_authorized spec args.action args.actor)) [
    | inr e ↦
        rw (e, handle_action)
          (inr (record {
            outcome = "unauthorized";
            error = none;
            status = inl (refl, refl);
            failure = ground (arith, eq_iff "unauthorized" "success");
            states = refl;
            audited = refl;
          }))
    | inl e ↦ rw (e, handle_action) (verdict_cases e _ refl)
  ]

-- ===== src/AlertHandler/Frozen.antt =====
-- `load_alert_state` returns the oldest line of an alert, not its newest: what that does to the state
-- machine of the alert handler.
use hpa_with_bmad.Base.{
  String, none, some, List, [], ◌∷◌, ◌++◌, ◌≡◌, ◌≢◌, inl, inr, lookup, string_eq, ==_iff, arith,
}
use hpa_with_bmad.AlertHandler.{
  ActionsSpec, StateEntry, Logs, Arguments, Moment, goes, find_state, load_alert_state,
  validate_transition, handle_action, run,
}
use hpa_with_bmad.AlertHandler.Audit.{handle_action_cases}
use hpa_with_bmad.AlertHandler.Shipped.{shipped_spec}

find_state-append :
    (alert_id : String) (es fs : List StateEntry) (e : StateEntry)
    → find_state alert_id es ≡ some e
    → find_state alert_id (es ++ fs) ≡ some e
unfolding find_state
find_state-append alert_id [] fs e h = cc
find_state-append alert_id (d ∷ es) fs e h = ground (arith, find_state-append alert_id es fs e)

handle_action-frozen :
    (spec : ActionsSpec) (m : Moment) (args : Arguments) (alert_id : String) (e : StateEntry)
    (logs : Logs)
    → load_alert_state alert_id logs ≡ some e
    → load_alert_state alert_id (handle_action spec m args logs).1 ≡ some e
handle_action-frozen spec m args alert_id e logs h = elim (handle_action_cases spec m args logs) [
  | inl a ↦ rw a.states (find_state-append alert_id logs.state_log _ e h)
  | inr r ↦ rw r.states h
]

-- Once an alert has a line in the state log, no sequence of actions, by anyone and under any
-- specification, changes the state that the handler loads for it: it stays that of the first line.
pub run-frozen :
    (spec : ActionsSpec) (steps : List (Moment × Arguments)) (alert_id : String) (e : StateEntry)
    (logs : Logs)
    → load_alert_state alert_id logs ≡ some e
    → load_alert_state alert_id (run spec steps logs) ≡ some e
unfolding run
run-frozen spec [] alert_id e logs h = h
run-frozen spec ((m, args) ∷ steps) alert_id e logs h =
    run-frozen spec steps alert_id e (handle_action spec m args logs).1
      (handle_action-frozen spec m args alert_id e logs h)

-- Under the shipped specification no action leads out of a state that no action names.
abbrev IsDead : String → Type 0
IsDead current =
    (action to_state : String) → validate_transition shipped_spec action current ≢ goes to_state

same_IsDead : IsDead "same"
unfolding validate_transition lookup
same_IsDead action to_state = ground arith

dead-fails :
    (m : Moment) (args : Arguments) (e : StateEntry) (logs : Logs)
    → IsDead e.state
    → load_alert_state args.alert_id logs ≡ some e
    → (handle_action shipped_spec m args logs).0 ≢ 0
dead-fails m args e logs dead h ok = elim (handle_action_cases shipped_spec m args logs) [
  | inl a ↦ dead args.action a.to_state (rw h at a.permitted.valid)
  | inr r ↦ elim r.status [
    | inl s ↦ omega arith
    | inr (inl s) ↦ omega arith
    | inr (inr s) ↦ omega arith
  ]
]

find_state-fresh :
    (alert_id state time : String) (es : List StateEntry)
    → find_state alert_id es ≡ none
    → find_state alert_id
        (es ++ record { alert_id = alert_id; state = state; updated_at = time } ∷ [])
      ≡ some (record { alert_id = alert_id; state = state; updated_at = time })
unfolding find_state
find_state-fresh alert_id state time [] h = ground (arith, ==_iff alert_id alert_id)
find_state-fresh alert_id state time (d ∷ es) h =
    ground (arith, find_state-fresh alert_id state time es)

note_target :
    (current to_state : String)
    → validate_transition shipped_spec "add_note" current ≡ goes to_state
    → to_state ≡ "same"
unfolding validate_transition lookup
note_target current to_state h = ground arith

noted :
    (m : Moment) (args : Arguments) (logs : Logs)
    → args.action ≡ "add_note"
    → load_alert_state args.alert_id logs ≡ none
    → (handle_action shipped_spec m args logs).0 ≡ 0
    → (e : StateEntry) × (e.state ≡ "same")
      × (load_alert_state args.alert_id (handle_action shipped_spec m args logs).1 ≡ some e)
noted m args logs note fresh ok = elim (handle_action_cases shipped_spec m args logs) [
  | inl a ↦ (
    record { alert_id = args.alert_id; state = a.to_state; updated_at = m.now },
    note_target _ a.to_state (rw (fresh, note) at a.permitted.valid),
    rw a.states (find_state-fresh args.alert_id a.to_state m.now logs.state_log fresh),
  )
  | inr r ↦ absurd (elim r.status [
    | inl s ↦ omega arith
    | inr (inl s) ↦ omega arith
    | inr (inr s) ↦ omega arith
  ])
]

-- Under the shipped specification a note on an alert with no line in the state log puts the alert
-- into the state "same", and from then on every action on it fails, whoever acts, whatever was done
-- in between, with any reason: the note ends the alert's life.
pub note_freezes :
    (m m' : Moment) (args args' : Arguments) (logs : Logs) (steps : List (Moment × Arguments))
    → args.action ≡ "add_note"
    → args'.alert_id ≡ args.alert_id
    → load_alert_state args.alert_id logs ≡ none
    → (handle_action shipped_spec m args logs).0 ≡ 0
    → (handle_action shipped_spec m' args'
        (run shipped_spec steps (handle_action shipped_spec m args logs).1)).0
      ≢ 0
note_freezes m m' args args' logs steps note same fresh ok =
    let (e, is_same, loaded) = noted m args logs note fresh ok in
    let after = run shipped_spec steps (handle_action shipped_spec m args logs).1 in
    dead-fails m' args' e after (rw is_same same_IsDead) (
      rw same (
        run-frozen shipped_spec steps args.alert_id e (handle_action shipped_spec m args logs).1
          loaded))

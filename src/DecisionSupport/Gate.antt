-- ===== src/DecisionSupport/Gate.antt =====
-- The approval gate of alert-decision-support.py.
use hpa_with_bmad.Base.{
  ℕ, ◌≤◌, String, true, false, List, [], ◌∷◌, ◌≡◌, refl, arith, eq_iff, Dict, string_eq, Bool-cases,
  inl, inr, if_ind, All, All-concat,
}
use hpa_with_bmad.Json.{Value, null, bool, num, str, arr, obj, entries, get, is_text}
use hpa_with_bmad.Http.{Body, malformed, document}
use hpa_with_bmad.DecisionSupport.{
  Config, shipped, Decision, Approval, Logs, score_recommendation, member, threshold, decide,
  decision_line, recommend, approve, Command, recommend_command, approve_command, execute_all,
}

-- A decision to execute is about an action that needs no approval, with enough confidence.
abbrev pub IsGuarded : Config → Decision → Type 0
IsGuarded config d =
    d.decision ≡ "execute"
    → (member d.action config.required_for ≡ false) × (threshold config ≤ d.confidence)

-- An approval is by one of the approvers.
abbrev pub IsApproved : Config → Approval → Type 0
IsApproved config a = a.approved ≡ true → member a.actor config.approvers ≡ true

pub record IsGated (config : Config) (s : Logs) : Type 0 where
  pub guarded : All (IsGuarded config) s.decisions
  pub approved : All (IsApproved config) s.approvals

decide-execute :
    (config : Config) (action : String) (confidence : ℕ)
    → decide config action confidence ≡ "execute"
    → (member action config.required_for ≡ false) × (threshold config ≤ confidence)
unfolding decide
decide-execute config action confidence h = ground (arith, eq_iff "pending_approval" "execute")

line-IsGuarded :
    (config : Config) (uuid now : String) (alert : Dict String Value)
    → IsGuarded config (decision_line config uuid now alert)
unfolding decision_line
line-IsGuarded config uuid now alert =
    decide-execute config (score_recommendation alert).0 (score_recommendation alert).1

recommend-IsGated :
    (config : Config) (uuid now : String) (b : Body) (s : Logs)
    → IsGated config s
    → IsGated config (recommend config uuid now b s).1
unfolding recommend
recommend-IsGated config uuid now (document (obj fs)) s w = record {
  guarded =
      All-concat (IsGuarded config) s.decisions w.guarded
        (line-IsGuarded config uuid now (entries fs));
  approved = w.approved;
}
recommend-IsGated config uuid now (malformed _) s w = w
recommend-IsGated config uuid now (document null) s w = w
recommend-IsGated config uuid now (document (bool _)) s w = w
recommend-IsGated config uuid now (document (num _)) s w = w
recommend-IsGated config uuid now (document (str _)) s w = w
recommend-IsGated config uuid now (document (arr _)) s w = w

approve-IsGated :
    (config : Config) (id actor now : String) (s : Logs)
    → IsGated config s
    → IsGated config (approve config id actor now s).1
unfolding approve
approve-IsGated config id actor now s w = elim (Bool-cases (member actor config.approvers)) [
  | inl a ↦
      rw (a, approve)
        record {
          guarded = w.guarded;
          approved = All-concat (IsApproved config) s.approvals w.approved (λ _. a);
        }
  | inr a ↦
      rw (a, approve)
        record {
          guarded = w.guarded;
          approved = All-concat (IsApproved config) s.approvals w.approved (λ h. cc);
        }
]

-- After any commands, under any configuration, every decision to execute is about an action that
-- needs no approval and has at least the confidence of the threshold, and every approval in the log
-- is by one of the approvers.
pub execute_all-IsGated :
    (config : Config) (cs : List Command) (s : Logs)
    → IsGated config s
    → IsGated config (execute_all config cs s)
execute_all-IsGated config [] s w = w
execute_all-IsGated config (recommend_command uuid now b ∷ cs) s w =
    execute_all-IsGated config cs _ (recommend-IsGated config uuid now b s w)
execute_all-IsGated config (approve_command id actor now ∷ cs) s w =
    execute_all-IsGated config cs _ (approve-IsGated config id actor now s w)

abbrev pub IsPending : Decision → Type 0
IsPending d = d.decision ≡ "pending_approval"

abbrev Waits : Value → String × ℕ → Type 0
Waits policy r = decide (shipped policy) r.0 r.1 ≡ "pending_approval"

shipped-decide :
    (policy : Value) (alert : Dict String Value) → Waits policy (score_recommendation alert)
unfolding score_recommendation
shipped-decide policy alert =
    let kind = get "alert_type" alert in
    let P : String × ℕ → Type 0 = Waits policy in
    if_ind P (is_text "service_down" kind) _ _ (unfold decide in refl) (
      if_ind P (is_text "memory_pressure" kind) _ _ (unfold decide in refl) (
        if_ind P (is_text "node_unreachable" kind) _ _ (unfold decide in refl)
          (unfold decide threshold in refl)))

line-IsPending :
    (policy : Value) (uuid now : String) (alert : Dict String Value)
    → IsPending (decision_line (shipped policy) uuid now alert)
unfolding decision_line
line-IsPending policy uuid now alert = shipped-decide policy alert

recommend-IsPending :
    (policy : Value) (uuid now : String) (b : Body) (s : Logs)
    → All IsPending s.decisions
    → All IsPending (recommend (shipped policy) uuid now b s).1.decisions
unfolding recommend
recommend-IsPending policy uuid now (document (obj fs)) s w =
    All-concat IsPending s.decisions w (line-IsPending policy uuid now (entries fs))
recommend-IsPending policy uuid now (malformed _) s w = w
recommend-IsPending policy uuid now (document null) s w = w
recommend-IsPending policy uuid now (document (bool _)) s w = w
recommend-IsPending policy uuid now (document (num _)) s w = w
recommend-IsPending policy uuid now (document (str _)) s w = w
recommend-IsPending policy uuid now (document (arr _)) s w = w

approve-decisions :
    (config : Config) (id actor now : String) (s : Logs)
    → (approve config id actor now s).1.decisions ≡ s.decisions
unfolding approve
approve-decisions config id actor now s = ground arith

-- Under the shipped configuration nothing is ever executed without an approval, for any alerts: every
-- decision is "pending_approval", since each action with enough confidence is on the list of those
-- that need one.
pub shipped_never_executes :
    (policy : Value) (cs : List Command) (s : Logs)
    → All IsPending s.decisions
    → All IsPending (execute_all (shipped policy) cs s).decisions
shipped_never_executes policy [] s w = w
shipped_never_executes policy (recommend_command uuid now b ∷ cs) s w =
    shipped_never_executes policy cs _ (recommend-IsPending policy uuid now b s w)
shipped_never_executes policy (approve_command id actor now ∷ cs) s w =
    shipped_never_executes policy cs _ (rw (approve-decisions (shipped policy) id actor now s) w)

-- ===== src/DecisionSupport/Tests.antt =====
-- Runs of the decision support, and its theorems at concrete inputs.
use hpa_with_bmad.Base.{List, [], ◌∷◌, ◌≡◌, refl, lookup, string_eq}
use hpa_with_bmad.Json.{null, str, Fields, end, field, obj, entries}
use hpa_with_bmad.Http.{document}
use hpa_with_bmad.DecisionSupport.{
  shipped, Command, recommend_command, approve_command, execute_all, init, score_recommendation,
  decision_line,
}
use hpa_with_bmad.DecisionSupport.Gate.{IsGated, execute_all-IsGated}

abbrev alert : Fields
alert = field "alert_type" (str "service_down") (field "severity" (str "critical") end)

abbrev commands : List Command
commands =
    recommend_command "r1" "now" (document (obj alert))
    ∷ approve_command "r1" "mallory@hpdc" "now"
    ∷ approve_command "r1" "alice@hpdc" "now"
    ∷ []

nothing_yet : IsGated (shipped null) init
nothing_yet = record { guarded = tt; approved = tt }

execute_all-IsGated_example : IsGated (shipped null) (execute_all (shipped null) commands init)
execute_all-IsGated_example = execute_all-IsGated (shipped null) commands init nothing_yet

critical_waits :
    (decision_line (shipped null) "r1" "now" (entries alert)).action ≡ "restart_deployment"
unfolding decision_line score_recommendation lookup
critical_waits = refl

-- ===== src/AlertHandler/Shipped.antt =====
-- The specification that gitops/alerts/base/alert-handler-actions.yaml ships.
use hpa_with_bmad.Base.{String, true, false, some, List, [], ◌∷◌, Dict}
use hpa_with_bmad.AlertHandler.{ActionDef, ActionsSpec}

abbrev responders : List String
responders = "oncall" ∷ "platform-engineer" ∷ "admin" ∷ []

abbrev pub shipped_actions : Dict String ActionDef
shipped_actions =
    (
      "acknowledge",
      record {
        from_states = "initial" ∷ "investigating" ∷ [];
        to = some "acknowledged";
        requires_reason = false;
        roles = responders;
      },
    )
    ∷ (
      "investigate",
      record {
        from_states = "acknowledged" ∷ [];
        to = some "investigating";
        requires_reason = false;
        roles = responders;
      },
    )
    ∷ (
      "add_note",
      record {
        from_states = "initial" ∷ "acknowledged" ∷ "investigating" ∷ "resolved" ∷ [];
        to = some "same";
        requires_reason = false;
        roles = "oncall" ∷ "platform-engineer" ∷ "admin" ∷ "observer" ∷ [];
      },
    )
    ∷ (
      "resolve",
      record {
        from_states = "acknowledged" ∷ "investigating" ∷ [];
        to = some "resolved";
        requires_reason = true;
        roles = responders;
      },
    )
    ∷ (
      "close",
      record {
        from_states = "resolved" ∷ "initial" ∷ "acknowledged" ∷ "investigating" ∷ [];
        to = some "closed";
        requires_reason = true;
        roles = "admin" ∷ [];
      },
    )
    ∷ (
      "reopen",
      record {
        from_states = "resolved" ∷ "closed" ∷ [];
        to = some "initial";
        requires_reason = true;
        roles = responders;
      },
    )
    ∷ []

abbrev pub shipped_spec : ActionsSpec
shipped_spec = record {
  users =
      ("alice@hpdc", "oncall")
      ∷ ("bob@hpdc", "platform-engineer")
      ∷ ("carol@hpdc", "admin")
      ∷ ("dave@hpdc", "observer")
      ∷ [];
  actions = shipped_actions;
}

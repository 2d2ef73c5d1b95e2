-- ===== src/AgentEngine/Tests.antt =====
-- Runs of the agent engine, and its theorems at concrete inputs.
use hpa_with_bmad.Base.{String, some, List, [], ◌∷◌, ◌≡◌, ◌⊎◌, refl, Dict, lookup, string_eq}
use hpa_with_bmad.Json.{Value, str, Fields, end, field, obj}
use hpa_with_bmad.Json.Key.{key_eq}
use hpa_with_bmad.Http.{aborted, document, status_of}
use hpa_with_bmad.AgentEngine.{Call, post_call, init, serve, mcp_invoke, agent, judge, is_capable}
use hpa_with_bmad.AgentEngine.Rules.{IsAudited, mcp_invoke_cases}
use hpa_with_bmad.AgentEngine.Invariant.{IsSound, serve-IsSound}

abbrev query : Fields
query = field "tool" (str "query_database") (field "agent_id" (str "agent-1@hpdc.local") end)

abbrev ask : Dict String Value
ask = ("agent_id", str "agent-1@hpdc.local") ∷ []

abbrev content : Fields
content = field "text" (str "hello") (field "from" (str "someone else") end)

abbrev send : Dict String Value
send =
    ("from_agent", str "agent-1@hpdc.local")
    ∷ ("to_agent", str "agent-2@hpdc.local")
    ∷ ("channel_token", str "a2a-token-agent-1@hpdc.local")
    ∷ ("message", obj content)
    ∷ []

abbrev calls : List Call
calls =
    post_call "2026-01-01T00:00:00.000Z" record {
      path = "/mcp/tools";
      query = [];
      headers = ("Content-Length", "62") ∷ [];
      body = document (obj query);
    }
    ∷ []

mcp_invoke_cases_example :
    (mcp_invoke "now" ask init ≡ (aborted, init)) ⊎ IsAudited ask init (mcp_invoke "now" ask init)
mcp_invoke_cases_example = mcp_invoke_cases "now" ask init

call_api_refused :
    status_of
      (mcp_invoke "now"
        (("tool", str "call_api") ∷ ("agent_id", str "agent-1@hpdc.local") ∷ [])
        init).0
    ≡ some 403
unfolding mcp_invoke judge agent is_capable lookup
call_api_refused = refl

nothing_yet : IsSound init
nothing_yet = record { honest = tt; delivered = tt }

serve-IsSound_example : IsSound (serve calls init)
serve-IsSound_example = serve-IsSound calls init nothing_yet

-- ===== src/AgentEngine.antt =====
-- scripts/services/agent-engine-local.py: the gate in front of the tools, the tokens of the agents
-- and the messages between them. `path` of a request is here the whole target, as in `self.path`.
pub mod Rules
pub mod Invariant
pub mod Tests
use hpa_with_bmad.Base.{
  ℤ, pos, String, Bool, true, false, Option, none, some, List, [], ◌∷◌, ◌++◌, if◌then◌else◌, not,
  ◌&&◌, ◌||◌, Dict, lookup, insert, string_eq, ◌==◌, any, starts_with, ◌+++◌,
}
use hpa_with_bmad.Json.{
  Value, null, bool, num, str, arr, obj, Items, nil, cons, Fields, end, field, entries, from_items,
  object, get, truthy, is_text, or_empty,
}
use hpa_with_bmad.Json.Key.{Key, text_key, key_of, key_eq}
use hpa_with_bmad.Http.{
  Request, Response, json, aborted, failed, Reading, parsed, bad_json, bad_value, read_body,
  on_reading, with_object,
}
use mathlib.Core.Option

-- The two files of the server's data directory, oldest line first.
pub record Logs : Type 0 where
  pub audit : List (Dict String Value)
  pub messages : List (Dict Key Value)

abbrev pub Capabilities : Type 0
Capabilities = List String

-- REGISTERED_AGENTS
abbrev pub registered_agents : Dict Key Capabilities
registered_agents =
    (text_key "agent-1@hpdc.local", "alert-analysis" ∷ "entity-query" ∷ [])
    ∷ (text_key "agent-2@hpdc.local", "telemetry-processing" ∷ "workflow-trigger" ∷ [])
    ∷ []

-- TOOL_ALLOW_LIST
abbrev pub tool_allow_list : List String
tool_allow_list = "query_database" ∷ "call_api" ∷ "trigger_workflow" ∷ []

-- TOOL_CAPABILITY
abbrev pub tool_capability : Dict Key String
tool_capability =
    (text_key "query_database", "entity-query")
    ∷ (text_key "call_api", "call-apis")
    ∷ (text_key "trigger_workflow", "workflow-trigger")
    ∷ []

abbrev pub max_body_bytes : ℤ
max_body_bytes = pos 65536

-- `REGISTERED_AGENTS[v]`, where `none` is the TypeError of a value that cannot be a key and
-- `some none` is a value that is no agent
unfoldable pub agent : Value → Option (Option Capabilities)
agent v = Option.map (λ k. lookup k registered_agents) (key_of v)

pub data Verdict : Type 0 where
  allowed : Verdict
  denied : String → Verdict
  raised : Verdict

-- `TOOL_CAPABILITY.get(tool) not in capabilities`
unfoldable pub is_capable : Value → Capabilities → Bool
is_capable tool caps = elim (key_of tool) [
  | none ↦ false
  | some k ↦ elim (lookup k tool_capability) [
    | none ↦ false
    | some needed ↦ any (λ c. c == needed) caps
  ]
]

-- The chain of tests in `_mcp_invoke`.
unfoldable pub judge : Value → Value → Verdict
judge tool agent_id =
    if not (truthy tool) || not (truthy agent_id)
    then denied "agent_id_and_tool_name_required"
    else if not (any (λ t. is_text t tool) tool_allow_list)
    then denied "tool_not_allowed"
    else elim (agent agent_id) [
      | none ↦ raised
      | some none ↦ denied "agent_not_registered"
      | some (some caps) ↦ if is_capable tool caps then allowed else denied "permission_denied"
    ]

-- The dictionary `audit` with what the decision adds to it.
abbrev pub audit_entry : String → Dict String Value → Dict String Value → Dict String Value
audit_entry now body decision =
    ("agent_id", get "agent_id" body)
    ∷ ("tool_name", get "tool" body)
    ∷ ("parameters", or_empty (get "args" body))
    ∷ ("timestamp", str now)
    ∷ decision

-- `_mcp_invoke`
unfoldable pub mcp_invoke : String → Dict String Value → Logs → Response × Logs
mcp_invoke now body s = elim (judge (get "tool" body) (get "agent_id" body)) [
  | raised ↦ (aborted, s)
  | denied reason ↦ (
    json 403 (object (("reason", str reason) ∷ [])),
    record s {
      audit =
          s.audit
          ++ audit_entry now body (("decision", str "denied") ∷ ("reason", str reason) ∷ []) ∷ [];
    },
  )
  | allowed ↦ (
    json 200 (object (("status", str "ok") ∷ ("result", str "ok") ∷ [])),
    record s {
      audit =
          s.audit
          ++ audit_entry now body (("decision", str "allowed") ∷ ("result", str "ok") ∷ []) ∷ [];
    },
  )
]

-- `_token_for`
unfoldable pub token_for : String → String
token_for agent_id = "a2a-token-" +++ agent_id

abbrev refuse : String → Logs → Response × Logs
refuse reason s = (json 403 (object (("reason", str reason) ∷ [])), s)

-- `f"a2a-token-{agent_id}"` of a registered agent, which is a text
abbrev pub agent_text : Value → String
agent_text (str s) = s
agent_text _ = ""

-- `_a2a_issue_token`
unfoldable pub a2a_issue_token : Dict String Value → Logs → Response × Logs
a2a_issue_token body s = elim (agent (get "agent_id" body)) [
  | none ↦ (aborted, s)
  | some none ↦ refuse "agent_not_registered" s
  | some (some _) ↦
      (json 200 (object (("token", str (token_for (agent_text (get "agent_id" body)))) ∷ [])), s)
]

-- An element of the sequence that `dict` is given: two things of which the first can be a key.
unfoldable pub pair_of : Value → Option (Key × Value)
pair_of (arr (cons k (cons v nil))) = Option.map (λ key. (key, v)) (key_of k)
pair_of (str (String.◌∷◌ c (String.◌∷◌ d String.[]))) =
    some (text_key (String.◌∷◌ c String.[]), str (String.◌∷◌ d String.[]))
pair_of (obj (field k _ (field v _ end))) = some (text_key k, str v)
pair_of _ = none

pairs_of : Items → Dict Key Value → Option (Dict Key Value)
pairs_of nil d = some d
pairs_of (cons v vs) d = elim (pair_of v) [ none ↦ none | some (k, w) ↦ pairs_of vs (insert k w d) ]

unfoldable pub from_fields : Fields → Dict Key Value
from_fields end = []
from_fields (field k v fs) = (text_key k, v) ∷ from_fields fs

-- `dict(message)`; `none` is its TypeError or ValueError
unfoldable pub dict_of : Value → Option (Dict Key Value)
unfolding from_fields pairs_of
dict_of (obj fs) = some (from_fields fs)
dict_of (arr vs) = pairs_of vs []
dict_of (str String.[]) = some []
dict_of _ = none

-- `routed.update({"from": ..., "to": ..., "routed_at": ...})`
unfoldable pub routed : String → Value → Value → Dict Key Value → Dict Key Value
routed now from_agent to_agent d =
    insert (text_key "routed_at") (str now)
      (insert (text_key "to") to_agent (insert (text_key "from") from_agent d))

-- `_a2a_send`
unfoldable pub a2a_send : String → Dict String Value → Logs → Response × Logs
a2a_send now body s =
    let from_agent = get "from_agent" body in
    let to_agent = get "to_agent" body in
    elim (agent from_agent) [
      | none ↦ (aborted, s)
      | some none ↦ refuse "agent_not_registered" s
      | some (some _) ↦
          if not (is_text (token_for (agent_text from_agent)) (get "channel_token" body))
          then refuse "unauthorized" s
          else elim (agent to_agent) [
            | none ↦ (aborted, s)
            | some none ↦ refuse "recipient_not_registered" s
            | some (some _) ↦ elim (dict_of (or_empty (get "message" body))) [
              | none ↦ (aborted, s)
              | some d ↦ (
                json 202 (object (("status", str "routed") ∷ [])),
                record s { messages = s.messages ++ routed now from_agent to_agent d ∷ [] },
              )
            ]
          ]
    ]

-- `f"invalid body: {exc}"`
unfoldable pub explained : Reading → Reading
explained (parsed v) = parsed v
explained (bad_json m) = bad_json ("invalid body: " +++ m)
explained (bad_value m) = bad_value ("invalid body: " +++ m)

-- `do_GET`
unfoldable pub do_get : Request → Logs → Response × Logs
do_get req s =
    if starts_with "/mcp/tools" req.path
    then (
      json 200 (
          object (
            (
              "tools",
              arr (
                  from_items (str "query_database" ∷ str "call_api" ∷ str "trigger_workflow" ∷ [])),
            )
            ∷ [])),
      s,
    )
    else if starts_with "/a2a/health" req.path
    then (json 200 (object (("status", str "ok") ∷ [])), s)
    else (failed 404 "not found", s)

-- The three operations call `body.get` first.
unfoldable pub do_post : String → Request → Logs → Response × Logs
do_post now req s = on_reading (explained (read_body max_body_bytes req)) s λ v.
    if starts_with "/mcp/tools" req.path
    then with_object v s (λ body. mcp_invoke now body s)
    else if starts_with "/a2a/token" req.path
    then with_object v s (λ body. a2a_issue_token body s)
    else if starts_with "/a2a/messages" req.path
    then with_object v s (λ body. a2a_send now body s)
    else (failed 404 "not found", s)

-- One call, with the time at which it is made.
pub data Call : Type 0 where
  get_call : Request → Call
  post_call : String → Request → Call

abbrev pub answer : Call → Logs → Response × Logs
answer (get_call req) s = do_get req s
answer (post_call now req) s = do_post now req s

abbrev pub init : Logs
init = record { audit = []; messages = [] }

-- Calls taken one after another.
abbrev pub serve : List Call → Logs → Logs
serve [] s = s
serve (c ∷ cs) s = serve cs (answer c s).1

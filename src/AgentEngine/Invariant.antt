-- ===== src/AgentEngine/Invariant.antt =====
-- What the two files of the agent engine hold after any calls.
use hpa_with_bmad.Base.{
  String, none, some, List, [], ◌∷◌, ◌++◌, ◌≡◌, inl, inr, lookup, string_eq, Dict, Option-cases,
  Bool-cases, All, All-concat, starts_with,
}
use hpa_with_bmad.Json.{Value, str, get, is_text, or_empty}
use hpa_with_bmad.Json.Key.{Key, text_key, key_eq}
use hpa_with_bmad.Http.{Request, Response, aborted, on_reading_ind, with_object_ind}
use hpa_with_bmad.AgentEngine.{
  Logs, mcp_invoke, a2a_send, a2a_issue_token, agent, token_for, agent_text, dict_of, routed,
  do_get, do_post, Call, get_call, post_call, answer, serve,
}
use hpa_with_bmad.AgentEngine.Rules.{
  IsGranted, IsAgent, IsAudited, mcp_invoke_cases, agent-IsAgent, routed-IsRouted,
}

-- An audit line that says "allowed" is about a call that the tables grant.
abbrev pub IsHonest : Dict String Value → Type 0
IsHonest e = get "decision" e ≡ str "allowed" → IsGranted (get "tool_name" e) (get "agent_id" e)

-- A message whose two ends are registered agents.
pub record IsDelivered (m : Dict Key Value) : Type 0 where
  pub sender : (v : Value) × (lookup (text_key "from") m ≡ some v) × IsAgent v
  pub recipient : (v : Value) × (lookup (text_key "to") m ≡ some v) × IsAgent v

pub record IsSound (s : Logs) : Type 0 where
  pub honest : All IsHonest s.audit
  pub delivered : All IsDelivered s.messages

pub data Effect (s : Logs) : Response × Logs → Type 0 where
  quiet : (reply : Response) → Effect s (reply, s)
  audits :
      (reply : Response) (e : Dict String Value)
      → IsHonest e
      → Effect s (reply, record s { audit = s.audit ++ e ∷ [] })
  routes :
      (reply : Response) (m : Dict Key Value)
      → IsDelivered m
      → Effect s (reply, record s { messages = s.messages ++ m ∷ [] })

audited-Effect :
    (body : Dict String Value) (s : Logs) (reply : Response) (t : Logs)
    → IsAudited body s (reply, t)
    → Effect s (reply, t)
audited-Effect body s reply t w = rw w.logged (
    audits reply w.entry λ says.
      rw (w.tool, w.caller) (elim w.outcome [ inl (_, _, g) ↦ g | inr (_, d, _) ↦ cc (d, says) ]))

mcp-Effect : (now : String) (body : Dict String Value) (s : Logs) → Effect s (mcp_invoke now body s)
mcp-Effect now body s = elim (mcp_invoke_cases now body s) [
  | inl h ↦ rw h (quiet aborted)
  | inr w ↦ audited-Effect body s (mcp_invoke now body s).0 (mcp_invoke now body s).1 w
]

token-Effect : (body : Dict String Value) (s : Logs) → Effect s (a2a_issue_token body s)
unfolding a2a_issue_token
token-Effect body s = elim (Option-cases (agent (get "agent_id" body))) [
  | inl e ↦ rw (e, a2a_issue_token) (quiet _)
  | inr (none, e) ↦ rw (e, a2a_issue_token) (quiet _)
  | inr (some caps, e) ↦ rw (e, a2a_issue_token) (quiet _)
]

routed-IsDelivered :
    (now : String) (body : Dict String Value) (d : Dict Key Value)
    → IsAgent (get "from_agent" body)
    → IsAgent (get "to_agent" body)
    → IsDelivered (routed now (get "from_agent" body) (get "to_agent" body) d)
routed-IsDelivered now body d f t =
    let w = routed-IsRouted now body d in
    record {
      sender = (get "from_agent" body, w.sender, f);
      recipient = (get "to_agent" body, w.recipient, t);
    }

send-Effect : (now : String) (body : Dict String Value) (s : Logs) → Effect s (a2a_send now body s)
unfolding a2a_send
send-Effect now body s = elim (Option-cases (agent (get "from_agent" body))) [
  | inl e ↦ rw (e, a2a_send) (quiet _)
  | inr (none, e) ↦ rw (e, a2a_send) (quiet _)
  | inr (some caps, e) ↦
      elim (Bool-cases
        (is_text (token_for (agent_text (get "from_agent" body))) (get "channel_token" body))) [
          | inr u ↦ rw (e, u, a2a_send) (quiet _)
          | inl u ↦ elim (Option-cases (agent (get "to_agent" body))) [
            | inl g ↦ rw (e, u, g, a2a_send) (quiet _)
            | inr (none, g) ↦ rw (e, u, g, a2a_send) (quiet _)
            | inr (some caps', g) ↦ elim (Option-cases (dict_of (or_empty (get "message" body)))) [
              | inl m ↦ rw (e, u, g, m, a2a_send) (quiet _)
              | inr (d, m) ↦
                  rw (e, u, g, m, a2a_send)
                    (routes _ _ (
                      routed-IsDelivered now body d (agent-IsAgent _ caps e)
                        (agent-IsAgent _ caps' g)))
            ]
          ]
        ]
]

post-Effect : (now : String) (req : Request) (s : Logs) → Effect s (do_post now req s)
unfolding do_post
post-Effect now req s =
    on_reading_ind (Effect s) s _ _ (λ m. quiet _)
      λ v. elim (Bool-cases (starts_with "/mcp/tools" req.path)) [
        | inl a ↦ rw a (with_object_ind (Effect s) s v _ (quiet _) λ body. mcp-Effect now body s)
        | inr a ↦ elim (Bool-cases (starts_with "/a2a/token" req.path)) [
          | inl b ↦
              rw (a, b) (with_object_ind (Effect s) s v _ (quiet _) λ body. token-Effect body s)
          | inr b ↦ elim (Bool-cases (starts_with "/a2a/messages" req.path)) [
            | inl c ↦
                rw (a, b, c)
                  (with_object_ind (Effect s) s v _ (quiet _) λ body. send-Effect now body s)
            | inr c ↦ rw (a, b, c) (quiet _)
          ]
        ]
      ]

get-Effect : (req : Request) (s : Logs) → Effect s (do_get req s)
unfolding do_get
get-Effect req s = elim (Bool-cases (starts_with "/mcp/tools" req.path)) [
  | inl a ↦ rw (a, do_get) (quiet _)
  | inr a ↦ elim (Bool-cases (starts_with "/a2a/health" req.path)) [
    | inl b ↦ rw (a, b, do_get) (quiet _)
    | inr b ↦ rw (a, b, do_get) (quiet _)
  ]
]

answer-Effect : (c : Call) (s : Logs) → Effect s (answer c s)
answer-Effect (get_call req) s = get-Effect req s
answer-Effect (post_call now req) s = post-Effect now req s

keeps-IsSound :
    (s : Logs) (result : Response × Logs) → Effect s result → IsSound s → IsSound result.1
keeps-IsSound s _ (quiet reply) w = w
keeps-IsSound s _ (audits reply e h) w = record {
  honest = All-concat IsHonest s.audit w.honest h;
  delivered = w.delivered;
}
keeps-IsSound s _ (routes reply m h) w = record {
  honest = w.honest;
  delivered = All-concat IsDelivered s.messages w.delivered h;
}

-- After any calls, every audit line that says "allowed" is about one of the two calls that the tables
-- grant, and every message in the topic file is from a registered agent to a registered agent.
pub serve-IsSound : (cs : List Call) (s : Logs) → IsSound s → IsSound (serve cs s)
serve-IsSound [] s w = w
serve-IsSound (c ∷ cs) s w =
    serve-IsSound cs (answer c s).1 (keeps-IsSound s (answer c s) (answer-Effect c s) w)

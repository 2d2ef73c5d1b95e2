-- ===== src/AgentEngine/Rules.antt =====
-- What the agent engine lets through.
use hpa_with_bmad.Base.{
  String, List, true, false, none, some, [], ◌∷◌, ◌++◌, ◌≡◌, ◌⊎◌, inl, inr, refl, arith, eq_iff,
  lookup, string_eq, Dict, Option-cases, lookup-insert,
}
use hpa_with_bmad.Json.{
  Value, null, bool, num, str, arr, obj, nil, cons, end, field, get, is_text, or_empty, Fields,
  object,
}
use hpa_with_bmad.Json.Key.{Key, text_key, key_eq}
use hpa_with_bmad.Http.{Response, json, aborted, status_of}
use hpa_with_bmad.AgentEngine.{
  Logs, Verdict, allowed, denied, raised, judge, agent, is_capable, mcp_invoke, audit_entry,
  a2a_send, a2a_issue_token, token_for, agent_text, dict_of, routed, from_fields,
}

-- The two calls that the shipped tables grant.
abbrev pub IsGranted : Value → Value → Type 0
IsGranted tool agent_id =
    (agent_id ≡ str "agent-1@hpdc.local") × (tool ≡ str "query_database")
    ⊎ (agent_id ≡ str "agent-2@hpdc.local") × (tool ≡ str "trigger_workflow")

IsGranted-texts : (t a : String) → judge (str t) (str a) ≡ allowed → IsGranted (str t) (str a)
unfolding judge agent is_capable lookup
IsGranted-texts t a h = ground (
  arith,
  eq_iff "query_database" t,
  eq_iff "call_api" t,
  eq_iff "trigger_workflow" t,
  eq_iff "agent-1@hpdc.local" a,
  eq_iff "agent-2@hpdc.local" a,
)

pub judge-IsGranted : (tool a : Value) → judge tool a ≡ allowed → IsGranted tool a
unfolding judge agent is_capable lookup
judge-IsGranted (str t) (str a) h = IsGranted-texts t a h
judge-IsGranted (str t) null h = absurd (ground arith)
judge-IsGranted (str t) (bool b) h = absurd (ground arith)
judge-IsGranted (str t) (num n) h = absurd (ground arith)
judge-IsGranted (str t) (arr nil) h = absurd (ground arith)
judge-IsGranted (str t) (arr (cons _ _)) h = absurd (ground arith)
judge-IsGranted (str t) (obj end) h = absurd (ground arith)
judge-IsGranted (str t) (obj (field _ _ _)) h = absurd (ground arith)
judge-IsGranted null a h = absurd (ground arith)
judge-IsGranted (bool b) a h = absurd (ground arith)
judge-IsGranted (num n) a h = absurd (ground arith)
judge-IsGranted (arr _) a h = absurd (ground arith)
judge-IsGranted (obj _) a h = absurd (ground arith)

granted-judge : (tool a : Value) → IsGranted tool a → judge tool a ≡ allowed
unfolding judge agent is_capable lookup
granted-judge tool a (inl (p, q)) = rw (p, q) refl
granted-judge tool a (inr (p, q)) = rw (p, q) refl

-- What one call of a tool leaves in the log when it is answered.
pub record IsAudited (body : Dict String Value) (s : Logs) (result : Response × Logs) : Type 0 where
  pub entry : Dict String Value
  pub logged : result.1 ≡ record s { audit = s.audit ++ entry ∷ [] }
  pub caller : get "agent_id" entry ≡ get "agent_id" body
  pub tool : get "tool_name" entry ≡ get "tool" body
  pub outcome :
      (status_of result.0 ≡ some 200)
        × (get "decision" entry ≡ str "allowed")
        × IsGranted (get "tool" body) (get "agent_id" body)
      ⊎ (status_of result.0 ≡ some 403)
        × (get "decision" entry ≡ str "denied")
        × ¬ IsGranted (get "tool" body) (get "agent_id" body)

Verdict-cases :
    (v : Verdict) → (v ≡ raised) ⊎ (v ≡ allowed) ⊎ ((reason : String) × (v ≡ denied reason))
Verdict-cases raised = inl refl
Verdict-cases allowed = inr (inl refl)
Verdict-cases (denied reason) = inr (inr (reason, refl))

-- Every call of a tool either breaks off without an answer and without a trace, or adds exactly one
-- line to the audit log, with the caller's agent_id and tool, which says whether it was allowed; and
-- it is allowed, with status 200, in two cases only: agent-1 with query_database and agent-2 with
-- trigger_workflow. So call_api is on the allow list and no agent can call it.
pub mcp_invoke_cases :
    (now : String) (body : Dict String Value) (s : Logs)
    → (mcp_invoke now body s ≡ (aborted, s)) ⊎ IsAudited body s (mcp_invoke now body s)
unfolding mcp_invoke
mcp_invoke_cases now body s = elim (Verdict-cases (judge (get "tool" body) (get "agent_id" body))) [
  | inl h ↦ inl (rw (h, mcp_invoke) refl)
  | inr (inl h) ↦ inr record {
    entry = audit_entry now body (("decision", str "allowed") ∷ ("result", str "ok") ∷ []);
    logged = rw (h, mcp_invoke) refl;
    caller = unfold lookup in refl;
    tool = unfold lookup in refl;
    outcome = inl (rw (h, mcp_invoke) refl, unfold lookup in refl, judge-IsGranted _ _ h);
  }
  | inr (inr (reason, h)) ↦ inr record {
    entry = audit_entry now body (("decision", str "denied") ∷ ("reason", str reason) ∷ []);
    logged = rw (h, mcp_invoke) refl;
    caller = unfold lookup in refl;
    tool = unfold lookup in refl;
    outcome =
        inr (rw (h, mcp_invoke) refl, unfold lookup in refl, λ g. cc (granted-judge _ _ g, h));
  }
]

-- The names of the two registered agents.
abbrev pub IsAgent : Value → Type 0
IsAgent v = (v ≡ str "agent-1@hpdc.local") ⊎ (v ≡ str "agent-2@hpdc.local")

pub agent-IsAgent : (v : Value) (caps : List String) → agent v ≡ some (some caps) → IsAgent v
unfolding agent lookup
agent-IsAgent (str a) caps h =
    ground (arith, eq_iff "agent-1@hpdc.local" a, eq_iff "agent-2@hpdc.local" a)
agent-IsAgent null caps h = absurd (ground arith)
agent-IsAgent (bool true) caps h = absurd (ground arith)
agent-IsAgent (bool false) caps h = absurd (ground arith)
agent-IsAgent (num n) caps h = absurd (ground arith)
agent-IsAgent (arr _) caps h = absurd (ground arith)
agent-IsAgent (obj _) caps h = absurd (ground arith)

IsAgent-agent : (v : Value) → IsAgent v → (caps : List String) × (agent v ≡ some (some caps))
unfolding agent lookup
IsAgent-agent v (inl h) = rw h ("alert-analysis" ∷ "entity-query" ∷ [], refl)
IsAgent-agent v (inr h) = rw h ("telemetry-processing" ∷ "workflow-trigger" ∷ [], refl)

is_text_self : (t : String) → is_text t (str t) ≡ true
is_text_self t = (eq_iff t t).1 refl

-- What a message in the topic file says of its sender and its recipient.
pub record IsRouted (body : Dict String Value) (m : Dict Key Value) : Type 0 where
  pub sender : lookup (text_key "from") m ≡ some (get "from_agent" body)
  pub recipient : lookup (text_key "to") m ≡ some (get "to_agent" body)

pub routed-IsRouted :
    (now : String) (body : Dict String Value) (d : Dict Key Value)
    → IsRouted body (routed now (get "from_agent" body) (get "to_agent" body) d)
unfolding routed
routed-IsRouted now body d = record {
  sender = rw (lookup-insert, lookup-insert, lookup-insert) refl;
  recipient = rw (lookup-insert, lookup-insert) refl;
}

dict_of-obj : (fs : Fields) → dict_of (or_empty (obj fs)) ≡ some (from_fields fs)
unfolding dict_of
dict_of-obj end = unfold from_fields in refl
dict_of-obj (field k v fs) = refl

issued-IsAgent :
    (ask : Dict String Value) (token : String) (s : Logs)
    → (a2a_issue_token ask s).0 ≡ json 200 (object (("token", str token) ∷ []))
    → IsAgent (get "agent_id" ask) × (token_for (agent_text (get "agent_id" ask)) ≡ token)
unfolding a2a_issue_token
issued-IsAgent ask token s issued = elim (Option-cases (agent (get "agent_id" ask))) [
  | inl e ↦ cc (rw (e, a2a_issue_token) at issued)
  | inr (none, e) ↦ cc (rw (e, a2a_issue_token) at issued)
  | inr (some caps, e) ↦
      let r = rw (e, a2a_issue_token) at issued in (agent-IsAgent (get "agent_id" ask) caps e, cc)
]

-- A token that the service issues to an agent lets it send: whoever asked for the token under
-- `agent_id`, a message with that sender and that token, an object as its content and a registered
-- recipient is answered 202 and becomes the last line of the topic file, with this sender and this
-- recipient, whatever the content said of them; nothing else changes.
pub issued_token_sends :
    (now : String) (ask send : Dict String Value) (token : String) (fs : Fields) (s t : Logs)
    → (a2a_issue_token ask s).0 ≡ json 200 (object (("token", str token) ∷ []))
    → get "from_agent" send ≡ get "agent_id" ask
    → get "channel_token" send ≡ str token
    → IsAgent (get "to_agent" send)
    → get "message" send ≡ obj fs
    → (m : Dict Key Value) × (a2a_send now send t ≡ (
      json 202 (object (("status", str "routed") ∷ [])),
      record t { messages = t.messages ++ m ∷ [] },
    ))
      × IsRouted send m
unfolding a2a_issue_token a2a_send
issued_token_sends now ask send token fs s t issued same_agent has_token to_ok content =
    let (is_agent, is_token) = issued-IsAgent ask token s issued in
    let (c, known) = IsAgent-agent (get "agent_id" ask) is_agent in
    let (c', to_known) = IsAgent-agent (get "to_agent" send) to_ok in
    let from_known : agent (get "from_agent" send) ≡ some (some c) = rw same_agent known in
    let from_token : token_for (agent_text (get "from_agent" send)) ≡ token =
      rw same_agent is_token in
    (
      routed now (get "from_agent" send) (get "to_agent" send) (from_fields fs),
      rw
          (
            a2a_send,
            from_known,
            from_token,
            has_token,
            is_text_self token,
            to_known,
            content,
            dict_of-obj fs,
          )
          refl,
      routed-IsRouted now send (from_fields fs),
    )

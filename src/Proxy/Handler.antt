-- ===== src/Proxy/Handler.antt =====
-- `handleMCP` of internal/proxy/proxy.go and what it calls. Every reading of the clock during one
-- request gives the same `now`; logs and the OTel span are not modelled.
pub mod Enforced
pub mod Audited
use truebearing.Base.{
  ℕ, ℤ, pos, negsuc, ◌+ℤ◌, int64, String, ◌≡◌, ◌⊎◌, inl, inr, Bool, true, false, not, ◌&&◌, Option,
  none, some, List, [], ◌∷◌, ◌++◌, ◌==◌, if◌then◌else◌,
}
use truebearing.Audit.{sign, write}
use truebearing.Engine.Chain.{stages}
use truebearing.Engine.Pipeline.{evaluate}
use truebearing.Engine.StoreBackend.{store_backend}
use truebearing.Engine.Types.{
  Action, allow, deny, escalate, shadow_deny, action_string, Decision, ToolCall,
}
use truebearing.Go.{
  Runtime, Float64, zero_float, ErrorKind, GoError, no_rows, Result, ok, err, text,
}
use truebearing.Policy.{Policy, EscalationConfig}
use truebearing.Proxy.Auth.{AgentClaims, auth_middleware, bearer_token}
use truebearing.Proxy.Mcp.{
  McpRequest, ToolCallParams, is_tool_call, parse_request, parse_tool_call_params,
  session_middleware,
}
use truebearing.Proxy.Notify.{NotifyConfig, notify}
use truebearing.Proxy.PolicyCache
use truebearing.Proxy.Response.{
  Response, unauthorized, missing_session_id, bad_request, gone, forwarded, rpc_error, rpc_deny,
  rpc_escalated, rpc_escalation_status,
}
use truebearing.Proxy.State.{Libraries, TraceEntry, Proxy, Request, Conditions, Handled, answer}
use truebearing.Session.{Session}
use truebearing.Store.Escalations.{create_escalation, get_escalation_status}
use truebearing.Store.Events.{append_event}
use truebearing.Store.Rows.{Store, SessionEvent, Escalation, AuditRecord, nullable_string}
use truebearing.Store.Sessions.{
  create_session, get_session, update_session_taint, increment_session_counters,
}

unfoldable pub build_delegation_chain : String → String → String
build_delegation_chain parent agent =
    if parent == "" then "" else text (parent ∷ " → " ∷ agent ∷ [])

abbrev pub tracing_headers : List String
tracing_headers =
    "traceparent" ∷ "x-datadog-trace-id" ∷ "x-cloud-trace-context" ∷ "x-amzn-trace-id"
    ∷ "x-b3-traceid" ∷ []

-- The loop over the headers that are left.
unfoldable pub first_trace_id : List String → (String → String) → String
first_trace_id [] headers = ""
first_trace_id (h ∷ hs) headers =
    let rest = first_trace_id hs headers in
    if not (headers h == "") then text (h ∷ "=" ∷ headers h ∷ []) else rest

unfoldable pub extract_client_trace_id : (String → String) → String
unfolding first_trace_id
extract_client_trace_id headers = first_trace_id tracing_headers headers

-- What a tool call is about once its request is parsed.
pub record Incoming : Type 0 where
  pub request : Request
  pub rpc_id : String
  pub params : ToolCallParams
  pub session_id : String
  pub claims : AgentClaims

-- The text of a token, where there is one.
abbrev pub token_of : Result String → String
token_of (ok token) = token
token_of (err e) = ""

abbrev pub new_session : String → String → String → Session
new_session id agent_name fingerprint = record {
  id = id;
  agent_name = agent_name;
  policy_fingerprint = fingerprint;
  tainted = false;
  tool_call_count = pos 0;
  estimated_cost_usd = zero_float;
  terminated = false;
}

abbrev webhook_of : Option EscalationConfig → String
webhook_of none = ""
webhook_of (some config) = config.webhook_url

module _ (libs : Libraries) (now : Conditions) where
  -- `writeTraceEntry`
  unfoldable pub record_trace : Option GoError → TraceEntry → Proxy → Proxy
  record_trace none entry p = record p { trace = p.trace ++ entry ∷ [] }
  record_trace (some e) entry p = p

  unfoldable pub write_trace_entry : TraceEntry → Proxy → Proxy
  unfolding record_trace
  write_trace_entry entry p = if p.tracing then record_trace now.trace_fault entry p else p

  -- Whether the write of the audit record failed, and the state.
  written : Result (Unit {0}) × Store → Proxy → Bool × Proxy
  written (ok t, s) p = (false, record p { store = s })
  written (err e, s) p =
      (true, record p { store = s; audit_write_failures = int64 (p.audit_write_failures +ℤ pos 1) })

  write_signed : Result AuditRecord → Proxy → Bool × Proxy
  unfolding written
  write_signed (err e) p = (false, p)
  write_signed (ok rec) p =
      written (write libs.rt libs.signer now.audit_fault now.duplicate rec p.store) p

  -- The record before it is signed.
  unfoldable pub audit_record_of : Incoming → ℕ → Decision → String → AuditRecord
  unfolding extract_client_trace_id build_delegation_chain
  audit_record_of inc seq decision fingerprint = record {
    id = now.audit_id;
    session_id = inc.session_id;
    seq = seq;
    agent_name = inc.claims.agent_name;
    tool_name = inc.params.name;
    arguments_sha256 = libs.rt.sha256_hex inc.params.arguments;
    decision = action_string decision.action;
    decision_reason = decision.reason;
    policy_fingerprint = fingerprint;
    agent_jwt_sha256 =
        libs.rt.sha256_hex (token_of (bearer_token libs.rt libs.auth inc.request.authorization));
    client_trace_id = extract_client_trace_id inc.request.headers;
    delegation_chain = build_delegation_chain inc.claims.parent_agent inc.claims.agent_name;
    recorded_at = now.now;
    signature = "";
  }

  write_with_key : Option String → Incoming → ℕ → Decision → String → Proxy → Bool × Proxy
  unfolding write_signed audit_record_of
  write_with_key none inc seq decision fingerprint p = (false, p)
  write_with_key (some key) inc seq decision fingerprint p =
      write_signed (sign libs.rt libs.signer (audit_record_of inc seq decision fingerprint) key) p

  unfoldable pub write_audit_record : Incoming → ℕ → Decision → String → Proxy → Bool × Proxy
  unfolding write_with_key
  write_audit_record inc seq decision fingerprint p =
      write_with_key p.signing_key inc seq decision fingerprint p

  new_escalation : Incoming → ℕ → Escalation
  new_escalation inc seq = record {
    id = now.escalation_id;
    session_id = inc.session_id;
    seq = seq;
    tool_name = inc.params.name;
    arguments_json = nullable_string inc.params.arguments;
    status = "pending";
    reason = none;
    created_at = pos 0;
    resolved_at = none;
  }

  -- The branch of `Escalate`, after the attempt to record the escalation.
  escalated :
      Result (Unit {0}) × Store → Escalation → Incoming → Decision → Policy → Proxy → Handled
  unfolding notify
  escalated (err e, s) esc inc decision pol p =
      answer (rpc_error inc.rpc_id "escalation could not be recorded" "internal_error")
        (record p { store = s })
  escalated (ok t, s) esc inc decision pol p = record {
    response = rpc_escalated inc.rpc_id now.escalation_id;
    state = record p { store = s };
    notification = some (
        notify libs.rt esc decision.reason
          (record { webhook_url = webhook_of pol.escalation; admin_port = p.admin_port }));
  }

  forward : Incoming → Bool → Proxy → Handled
  forward inc audit_failed p =
      if audit_failed && p.audit_strict
      then answer
          (rpc_error inc.rpc_id
            "audit record could not be written; request denied by audit-strict mode"
            "audit_write_failure")
          p
      else answer forwarded (record p {
        store =
            (increment_session_counters libs.rt now.counter_fault now.now inc.session_id
              libs.cost_per_tool_call p.store).1;
      })

  -- `switch decision.Action`
  unfoldable pub enforce : Action → Incoming → ℕ → Decision → Policy → Bool → Proxy → Handled
  unfolding forward escalated new_escalation
  enforce allow inc seq decision pol failed p = forward inc failed p
  enforce shadow_deny inc seq decision pol failed p = forward inc failed p
  enforce deny inc seq decision pol failed p =
      answer (rpc_deny inc.rpc_id inc.params.name decision) p
  enforce escalate inc seq decision pol failed p =
      let esc = new_escalation inc seq in
      escalated (create_escalation libs.rt now.escalation_fault now.duplicate now.now esc p.store)
        esc inc decision pol p

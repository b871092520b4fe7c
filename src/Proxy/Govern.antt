-- ===== src/Proxy/Govern.antt =====
-- The part of `handleMCP` of internal/proxy/proxy.go that governs a tool call: the session, its policy,
-- the pipeline, the event, the audit record and the taint flag, up to the enforced decision.
pub mod Mediation
pub mod Recording
pub mod Audited
pub mod Terminated
pub mod Enforcement
use truebearing.Base.{
  ℕ, ℤ, String, ◌≡◌, ◌⊎◌, inl, inr, Bool, true, false, not, ◌&&◌, ◌||◌, Option, none, some, List,
  [], ◌∷◌, ◌==◌, if◌then◌else◌,
}
use truebearing.Engine.Chain.{stages}
use truebearing.Engine.Pipeline.{evaluate}
use truebearing.Engine.StoreBackend.{store_backend}
use truebearing.Engine.Types.{Action, action_string, Decision, ToolCall}
use truebearing.Go.{Runtime, GoError, ErrorKind, no_rows, Result, ok, err, text, wrapf}
use truebearing.Policy.{Policy}
use truebearing.Proxy.Auth.{AgentClaims, auth_middleware}
use truebearing.Proxy.Handler.{
  Incoming, write_trace_entry, write_audit_record, enforce, new_session,
}
use truebearing.Proxy.Mcp.{
  McpRequest, ToolCallParams, is_tool_call, parse_request, parse_tool_call_params,
  session_middleware,
}
use truebearing.Proxy.PolicyCache
use truebearing.Proxy.PolicyCache.{PolicyLru}
use truebearing.Proxy.Response.{
  Response, unauthorized, missing_session_id, bad_request, gone, forwarded, rpc_error,
  rpc_escalation_status,
}
use truebearing.Proxy.State.{Libraries, TraceEntry, Proxy, Request, Conditions, Handled, answer}
use truebearing.Session.{Session}
use truebearing.Store.Escalations.{get_escalation_status}
use truebearing.Store.Events.{append_event}
use truebearing.Store.Rows.{Store, SessionEvent, nullable_string}
use truebearing.Store.Sessions.{create_session, get_session, update_session_taint}

-- The policy of the session's fingerprint, if it is cached, and the live policy elsewhere.
abbrev pub or_live : Option Policy → Policy → Policy
or_live none live = live
or_live (some pol) live = pol

abbrev same : Bool → Bool → Bool
same true b = b
same false b = not b

module _ (libs : Libraries) (now : Conditions) where
  created : Result (Unit {0}) × Store → Incoming → Policy → (Response ⊎ Session) × Store
  created (err e, s) inc live = (inl (bad_request "session creation failed"), s)
  created (ok t, s) inc live =
      (inr (new_session inc.session_id inc.claims.agent_name live.fingerprint), s)

  missing : ErrorKind → Incoming → Policy → Store → (Response ⊎ Session) × Store
  unfolding created
  missing no_rows inc live s =
      created
        (create_session libs.rt now.create_fault now.duplicate now.now inc.session_id
          inc.claims.agent_name live.fingerprint s)
        inc live
  missing _ inc live s = (inl (bad_request "session lookup failed"), s)

  load_session : Result Session → Incoming → Policy → Store → (Response ⊎ Session) × Store
  unfolding missing
  load_session (ok sess) inc live s = (inr sess, s)
  load_session (err e) inc live s = missing e.kind inc live s

  -- Load or create the session, or refuse.
  unfoldable pub get_or_create_session : Incoming → Policy → Store → (Response ⊎ Session) × Store
  unfolding load_session
  get_or_create_session inc live s =
      load_session (get_session libs.rt now.session_fault inc.session_id s) inc live s

  unfoldable pub resolve_policy : String → Proxy → Policy × Proxy
  resolve_policy fingerprint p =
      let (found, cache) = PolicyCache.get fingerprint p.pol_cache in
      (or_live found p.live_pol, record p { pol_cache = cache })

  unfoldable pub tool_call_of : Incoming → ToolCall
  tool_call_of inc = record {
    session_id = inc.session_id;
    agent_name = inc.claims.agent_name;
    tool_name = inc.params.name;
    arguments = inc.params.arguments;
    agent_env = inc.claims.env;
    parent_agent = inc.claims.parent_agent;
    requested_at = now.requested_at;
  }

  -- The chain over the store, as `New` builds it.
  unfoldable pub decide : Incoming → Session → Policy → Proxy → Decision × Session
  unfolding tool_call_of
  decide inc sess pol p =
      evaluate (stages libs.rt now.now (store_backend libs.rt now.read_faults p.store))
        (tool_call_of inc) sess pol

  unfoldable pub event_of : Incoming → Decision → SessionEvent
  event_of inc decision = record {
    seq = 0;
    session_id = inc.session_id;
    tool_name = inc.params.name;
    arguments_json = nullable_string inc.params.arguments;
    decision = action_string decision.action;
    policy_rule = nullable_string decision.rule_id;
    recorded_at = ℤ.pos 0;
  }

  persisted : Result (Unit {0}) × Store → Incoming → ℕ → Decision → Policy → Bool → Proxy → Handled
  persisted (err e, s) inc seq decision pol failed p =
      answer (bad_request "session state update failed") (record p { store = s })
  persisted (ok t, s) inc seq decision pol failed p =
      enforce libs now decision.action inc seq decision pol failed (record p { store = s })

  -- Persist the taint flag if it changed, then enforce.
  pub persist_taint : Bool → Session → Incoming → ℕ → Decision → Policy → Bool × Proxy → Handled
  unfolding persisted
  persist_taint before sess inc seq decision pol (failed, p) =
      if not (same before sess.tainted)
      then persisted
          (update_session_taint libs.rt now.taint_fault now.now inc.session_id sess.tainted p.store)
          inc seq decision pol failed p
      else enforce libs now decision.action inc seq decision pol failed p

  recorded : Result ℕ × Store → Incoming → Bool → Decision × Session → Policy → Proxy → Handled
  unfolding persist_taint
  recorded (err e, s) inc before (decision, sess) pol p =
      answer (bad_request "session recording failed") (record p { store = s })
  recorded (ok seq, s) inc before (decision, sess) pol p =
      persist_taint before sess inc seq decision pol
        (write_audit_record libs now inc seq decision pol.fingerprint (record p { store = s }))

  -- From the decision of the pipeline on.
  record_event : Incoming → Bool → Decision × Session → Policy → Proxy → Handled
  unfolding recorded event_of
  record_event inc before result pol p =
      recorded
        (append_event libs.rt now.append_fault now.refused now.now (event_of inc result.0) p.store)
        inc before result pol p

  -- The call of a session that is not terminated.
  unfoldable pub run_pipeline : Incoming → Session → Policy → Proxy → Handled
  unfolding decide record_event
  run_pipeline inc sess pol p = record_event inc sess.tainted (decide inc sess pol p) pol p

  in_session : Incoming → Session → Policy × Proxy → Handled
  unfolding run_pipeline
  in_session inc sess (pol, p) =
      if sess.terminated then answer (gone inc.session_id) p else run_pipeline inc sess pol p

  with_session : (Response ⊎ Session) × Store → Incoming → Proxy → Handled
  unfolding in_session resolve_policy
  with_session (inl response, s) inc p = answer response (record p { store = s })
  with_session (inr sess, s) inc p =
      in_session inc sess (resolve_policy sess.policy_fingerprint (record p { store = s }))

  trace_entry_of : Incoming → TraceEntry
  trace_entry_of inc = record {
    session_id = inc.session_id;
    agent_name = inc.claims.agent_name;
    tool_name = inc.params.name;
    arguments = inc.params.arguments;
    requested_at = libs.rt.rfc3339 now.requested_at;
  }

  -- A tool call that is not the virtual tool's.
  unfoldable pub govern : Incoming → Proxy → Handled
  unfolding with_session get_or_create_session trace_entry_of
  govern inc p =
      let p' = write_trace_entry libs now (trace_entry_of inc) p in
      with_session (get_or_create_session inc p'.live_pol p'.store) inc p'

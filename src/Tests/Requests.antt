-- ===== src/Tests/Requests.antt =====
-- Requests through the proxy.
use truebearing.Audit.{sign, canonical_json}
use truebearing.Base.{
  ◌≡◌, ◌≢◌, ◌⊎◌, inl, inr, refl, String, List, [], ◌∷◌, ◌++◌, Bool, true, false, none, some,
}
use truebearing.Engine.Budget.{ZeroIsNotAbove}
use truebearing.Engine.Chain.Permitted.{IsPermitted}
use truebearing.Engine.Pipeline.{is_shadow}
use truebearing.Engine.StoreBackend.{store_backend}
use truebearing.Go.{ok}
use truebearing.Proxy.Auth.{auth_middleware}
use truebearing.Proxy.Auth.Authentic.{auth_middleware-IsAuthentic, IsAuthentic}
use truebearing.Proxy.Dispatch.{handler}
use truebearing.Proxy.Dispatch.Entry.{handler-IsMediated, IsMediated}
use truebearing.Proxy.Govern.{decide, govern, run_pipeline}
use truebearing.Proxy.Govern.Enforcement.{call_of, run_pipeline-IsPermitted}
use truebearing.Proxy.Govern.Mediation.{govern-IsGoverned, IsGoverned}
use truebearing.Proxy.Govern.Audited.{audit_row, run_pipeline-audited, unsigned_record}
use truebearing.Proxy.Govern.Recording.{decision_row, run_pipeline-one_event}
use truebearing.Proxy.Govern.Terminated.{govern-terminated}
use truebearing.Proxy.Handler.{audit_record_of}
use truebearing.Proxy.Mcp.{is_tool_call}
use truebearing.Proxy.PolicyCache.{get, PolicyLru, set}
use truebearing.Proxy.Response.{bad_request, forwarded, gone}
use truebearing.Proxy.State.{Proxy}
use truebearing.Store.Rows.{AuditRecord}
use truebearing.Store.Sessions.{get_session}
use truebearing.Tests.World.{
  bot_claims, fresh_session, quiet, read_incoming, read_request, session_row, test_libraries,
  test_policy, test_proxy, test_runtime,
}
use truebearing.Tests.Evaluators.{zero_is_not_above}

abbrev proxy : Proxy
proxy = test_proxy (session_row false)

abbrev shut_proxy : Proxy
shut_proxy = test_proxy (session_row true)

is_call : is_tool_call test_runtime test_libraries.decoder "body" ≡ true
unfolding is_tool_call
is_call = refl

read_is_forwarded : (handler test_libraries quiet read_request proxy).response ≡ forwarded
unfolding truebearing.Proxy.Dispatch.handler truebearing.Proxy.Auth.auth_middleware
    truebearing.Proxy.Mcp.parse_tool_call_params truebearing.Proxy.Mcp.session_middleware
    truebearing.Proxy.Handler.write_trace_entry truebearing.Proxy.Handler.write_audit_record
    truebearing.Proxy.Handler.enforce truebearing.Store.Agents.find_agent
    truebearing.Store.Agents.is_revoked truebearing.Store.Agents.get_agent
    truebearing.Store.Sessions.find_row truebearing.Store.Sessions.get_session
    truebearing.Store.Sessions.update_session_taint truebearing.Store.Events.has_session
    truebearing.Store.Events.append_event truebearing.Store.Events.count_session_events_since
    truebearing.Store.Audit.append_audit_record truebearing.Audit.sign truebearing.Audit.write
    truebearing.Engine.Chain.stages truebearing.Engine.Pipeline.evaluate
    truebearing.Engine.StoreBackend.store_backend truebearing.Engine.MayUse.evaluate
    truebearing.Engine.Env.evaluate truebearing.Engine.Budget.evaluate
    truebearing.Engine.Delegation.evaluate truebearing.Engine.Taint.evaluate
    truebearing.Engine.Sequence.has_no_predicates truebearing.Engine.Sequence.evaluate
    truebearing.Engine.Content.evaluate truebearing.Engine.RateLimit.evaluate
    truebearing.Engine.Escalation.evaluate truebearing.Proxy.PolicyCache.get truebearing.Base.keep
    truebearing.Base.any truebearing.Base.contains truebearing.Base.lookup
read_is_forwarded = refl

handler-IsMediated_example : IsMediated test_libraries quiet proxy read_request "body"
handler-IsMediated_example =
    handler-IsMediated test_libraries quiet proxy read_request refl is_call read_is_forwarded

run_is_forwarded :
    (run_pipeline test_libraries quiet read_incoming fresh_session test_policy proxy).response
    ≡ forwarded
unfolding truebearing.Proxy.Govern.govern truebearing.Proxy.Handler.write_audit_record
    truebearing.Proxy.Handler.enforce truebearing.Store.Sessions.update_session_taint
    truebearing.Store.Events.has_session truebearing.Store.Events.append_event
    truebearing.Store.Events.count_session_events_since truebearing.Store.Audit.append_audit_record
    truebearing.Audit.sign truebearing.Audit.write truebearing.Engine.Chain.stages
    truebearing.Engine.Pipeline.evaluate truebearing.Engine.StoreBackend.store_backend
    truebearing.Engine.MayUse.evaluate truebearing.Engine.Env.evaluate
    truebearing.Engine.Budget.evaluate truebearing.Engine.Delegation.evaluate
    truebearing.Engine.Taint.evaluate truebearing.Engine.Sequence.has_no_predicates
    truebearing.Engine.Sequence.evaluate truebearing.Engine.Content.evaluate
    truebearing.Engine.RateLimit.evaluate truebearing.Engine.Escalation.evaluate
    truebearing.Base.keep truebearing.Base.any truebearing.Base.contains truebearing.Base.lookup
run_is_forwarded = refl

read_is_enforced : is_shadow test_policy (call_of quiet read_incoming) ≡ false
unfolding is_shadow truebearing.Base.lookup
read_is_enforced = refl

run_pipeline-IsPermitted_example :
    IsPermitted test_runtime quiet.now
      (store_backend test_runtime quiet.read_faults proxy.store)
      (call_of quiet read_incoming)
      fresh_session
      test_policy
run_pipeline-IsPermitted_example =
    run_pipeline-IsPermitted test_libraries quiet read_incoming test_policy zero_is_not_above
      fresh_session proxy read_is_enforced run_is_forwarded

govern_is_forwarded : (govern test_libraries quiet read_incoming proxy).response ≡ forwarded
unfolding truebearing.Proxy.Govern.govern truebearing.Proxy.Handler.write_trace_entry
    truebearing.Proxy.Handler.write_audit_record truebearing.Proxy.Handler.enforce
    truebearing.Store.Sessions.find_row truebearing.Store.Sessions.get_session
    truebearing.Store.Sessions.update_session_taint truebearing.Store.Events.has_session
    truebearing.Store.Events.append_event truebearing.Store.Events.count_session_events_since
    truebearing.Store.Audit.append_audit_record truebearing.Audit.sign truebearing.Audit.write
    truebearing.Engine.Chain.stages truebearing.Engine.Pipeline.evaluate
    truebearing.Engine.StoreBackend.store_backend truebearing.Engine.MayUse.evaluate
    truebearing.Engine.Env.evaluate truebearing.Engine.Budget.evaluate
    truebearing.Engine.Delegation.evaluate truebearing.Engine.Taint.evaluate
    truebearing.Engine.Sequence.has_no_predicates truebearing.Engine.Sequence.evaluate
    truebearing.Engine.Content.evaluate truebearing.Engine.RateLimit.evaluate
    truebearing.Engine.Escalation.evaluate truebearing.Proxy.PolicyCache.get truebearing.Base.keep
    truebearing.Base.any truebearing.Base.contains truebearing.Base.lookup
govern_is_forwarded = refl

govern-IsGoverned_example : IsGoverned test_libraries quiet read_incoming proxy
govern-IsGoverned_example =
    govern-IsGoverned test_libraries quiet read_incoming proxy govern_is_forwarded

bot_is_admitted :
    auth_middleware test_runtime test_libraries.auth "Bearer h.p.s" none proxy.store
    ≡ inr bot_claims
unfolding truebearing.Proxy.Auth.auth_middleware truebearing.Store.Agents.get_agent
    truebearing.Store.Agents.find_agent truebearing.Store.Agents.is_revoked
bot_is_admitted = refl

auth_middleware-IsAuthentic_example :
    IsAuthentic test_runtime test_libraries.auth proxy.store bot_claims "Bearer h.p.s"
auth_middleware-IsAuthentic_example =
    auth_middleware-IsAuthentic test_runtime test_libraries.auth proxy.store bot_claims
      "Bearer h.p.s" none bot_is_admitted

run_pipeline-one_event_example :
    ((run_pipeline test_libraries quiet read_incoming fresh_session test_policy
        proxy).state.store.session_events
      ≡ proxy.store.session_events
        ++ decision_row test_libraries quiet read_incoming test_policy
            (decide test_libraries quiet read_incoming fresh_session test_policy proxy).0
            proxy
          ∷ [])
    ⊎ (((run_pipeline test_libraries quiet read_incoming fresh_session test_policy
            proxy).state.store.session_events
          ≡ proxy.store.session_events)
        × ((run_pipeline test_libraries quiet read_incoming fresh_session test_policy
              proxy).response
            ≡ bad_request "session recording failed"))
run_pipeline-one_event_example =
    run_pipeline-one_event test_libraries quiet read_incoming test_policy fresh_session proxy

signs :
    (rec : AuditRecord)
    → (signed : AuditRecord) × (sign test_runtime test_libraries.signer rec "key" ≡ ok signed)
unfolding sign
signs rec = (record rec { signature = "sig" }, refl)

run_pipeline-audited_example :
    let d = (decide test_libraries quiet read_incoming fresh_session test_policy proxy).0 in
    (signature : String) × (sign test_runtime test_libraries.signer
        (unsigned_record test_libraries quiet read_incoming test_policy d proxy)
        "key"
      ≡ ok (record (unsigned_record test_libraries quiet read_incoming test_policy d proxy) {
        signature = signature;
      }))
    × ((run_pipeline test_libraries quiet read_incoming fresh_session test_policy
          proxy).state.store.audit_log
        ≡ proxy.store.audit_log
          ++ audit_row test_libraries quiet read_incoming test_policy d proxy signature ∷ [])
run_pipeline-audited_example =
    run_pipeline-audited test_libraries quiet read_incoming test_policy fresh_session proxy refl
      refl signs run_is_forwarded

shut_is_read :
    get_session test_runtime none "s1" shut_proxy.store
    ≡ ok (record fresh_session { terminated = true })
unfolding get_session truebearing.Store.Sessions.find_row
shut_is_read = refl

govern-terminated_example :
    ((govern test_libraries quiet read_incoming shut_proxy).response ≡ gone "s1")
    × ((govern test_libraries quiet read_incoming shut_proxy).state.store ≡ shut_proxy.store)
govern-terminated_example =
    govern-terminated test_libraries quiet read_incoming shut_proxy shut_is_read refl

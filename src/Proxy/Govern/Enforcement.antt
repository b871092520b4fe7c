-- ===== src/Proxy/Govern/Enforcement.antt =====
-- Outside shadow mode the upstream sees permitted calls only.
use truebearing.Base.{◌≡◌, false, arith}
use truebearing.Engine.Budget.{ZeroIsNotAbove}
use truebearing.Engine.Chain.{stages}
use truebearing.Engine.Chain.Permitted.{evaluate-IsPermitted, IsPermitted, stages-Answers}
use truebearing.Engine.Pipeline.{is_shadow}
use truebearing.Engine.Pipeline.Modes.{evaluate-IsEnforced}
use truebearing.Engine.StoreBackend.{store_backend}
use truebearing.Engine.Types.{ToolCall}
use truebearing.Policy.{Policy}
use truebearing.Proxy.Govern.{decide, run_pipeline}
use truebearing.Proxy.Govern.Recording.{run_pipeline-forwarded}
use truebearing.Proxy.Handler.{Incoming}
use truebearing.Proxy.Response.{forwarded}
use truebearing.Proxy.State.{Libraries, Proxy, Conditions}
use truebearing.Session.{Session}

-- The call that is judged: the session, the tool and the arguments of the request, the agent of the token
-- with its environment and its parent, and the time of the request.
abbrev pub call_of : Conditions → Incoming → ToolCall
call_of now inc = record {
  session_id = inc.session_id;
  agent_name = inc.claims.agent_name;
  tool_name = inc.params.name;
  arguments = inc.params.arguments;
  agent_env = inc.claims.env;
  parent_agent = inc.claims.parent_agent;
  requested_at = now.requested_at;
}

module _ (libs : Libraries) (now : Conditions) (inc : Incoming) (pol : Policy) where
  -- Where the tool is not in shadow mode, a forwarded call is permitted: all nine conditions of the
  -- policy hold of the call, the session and the store before the call.
  pub run_pipeline-IsPermitted :
      ZeroIsNotAbove libs.rt
      → (sess : Session) (p : Proxy) → is_shadow pol (call_of now inc) ≡ false
      → (run_pipeline libs now inc sess pol p).response ≡ forwarded
      → IsPermitted libs.rt now.now
          (store_backend libs.rt now.read_faults p.store)
          (call_of now inc)
          sess
          pol
  unfolding decide truebearing.Proxy.Govern.tool_call_of
  run_pipeline-IsPermitted law sess p enforced h =
      let store = store_backend libs.rt now.read_faults p.store in
      let call = call_of now inc in
      let chain = stages libs.rt now.now store in
      let decision =
        evaluate-IsEnforced call sess pol chain enforced (stages-Answers libs.rt now.now store) in
      let passing = run_pipeline-forwarded libs now inc pol sess p h in
      (evaluate-IsPermitted libs.rt now.now store law call sess pol).0 (ground arith)

-- ===== src/Proxy/Dispatch.antt =====
-- `handleMCP` and `Handler` of internal/proxy/proxy.go: from the request to the enforced decision. The
-- session id is the one that the middleware put into the context.
pub mod Entry
use truebearing.Base.{
  ℕ, ℤ, String, ◌≡◌, ◌⊎◌, inl, inr, Bool, true, false, not, ◌&&◌, ◌||◌, Option, none, some, List,
  [], ◌∷◌, ◌==◌, if◌then◌else◌,
}
use truebearing.Engine.Chain.{stages}
use truebearing.Engine.Pipeline.{evaluate}
use truebearing.Engine.StoreBackend.{store_backend}
use truebearing.Engine.Types.{Action, action_string, Decision, ToolCall}
use truebearing.Go.{Runtime, GoError, ErrorKind, no_rows, Result, ok, err, text, wrapf}
use truebearing.Policy.{Policy}
use truebearing.Proxy.Auth.{AgentClaims, auth_middleware}
use truebearing.Proxy.Govern.{govern}
use truebearing.Proxy.Mcp.{
  McpRequest, ToolCallParams, is_tool_call, parse_request, parse_tool_call_params,
  session_middleware,
}
use truebearing.Proxy.PolicyCache
use truebearing.Proxy.PolicyCache.{PolicyLru}
use truebearing.Proxy.Response.{
  Response, unauthorized, missing_session_id, bad_request, gone, forwarded, rpc_error,
  rpc_escalation_status,
}
use truebearing.Proxy.State.{Libraries, TraceEntry, Proxy, Request, Conditions, Handled, answer}
use truebearing.Session.{Session}
use truebearing.Store.Escalations.{get_escalation_status}
use truebearing.Store.Events.{append_event}
use truebearing.Store.Rows.{Store, SessionEvent, nullable_string}
use truebearing.Store.Sessions.{create_session, get_session, update_session_taint}

module _ (libs : Libraries) (now : Conditions) where
  status_response : Result String → String → String → Response
  status_response (err e) rpc_id id = rpc_error rpc_id "escalation not found" "escalation_not_found"
  status_response (ok status) rpc_id id = rpc_escalation_status rpc_id id status

  -- `escalation.GetStatus`
  get_status : Result String → String → Result String
  get_status (err e) id =
      err (wrapf ("getting status for escalation " ∷ libs.rt.quote id ∷ ": " ∷ []) e)
  get_status (ok status) id = ok status

  -- The virtual tool that tells the status of an escalation.
  unfoldable pub check_escalation_status : String → String → Proxy → Response
  unfolding status_response get_status
  check_escalation_status rpc_id id p =
      if id == ""
      then rpc_error rpc_id "check_escalation_status requires an escalation_id argument"
          "virtual_tool_error"
      else status_response
          (get_status (get_escalation_status libs.rt now.status_fault id p.store) id) rpc_id id

  with_params : Result ToolCallParams → String → String → AgentClaims → Request → Proxy → Handled
  unfolding govern check_escalation_status
  with_params (err e) rpc_id session_id claims request p =
      answer (bad_request "malformed tool call params") p
  with_params (ok params) rpc_id session_id claims request p =
      if params.name == "check_escalation_status"
      then answer
          (check_escalation_status rpc_id (libs.rt.gjson_get params.arguments "escalation_id").text
            p)
          p
      else govern libs now
          (record {
            request = request;
            rpc_id = rpc_id;
            params = params;
            session_id = session_id;
            claims = claims;
          })
          p

  with_request : Result McpRequest → String → AgentClaims → Request → Proxy → Handled
  unfolding with_params
  with_request (err e) session_id claims request p = answer (bad_request "malformed MCP request") p
  with_request (ok r) session_id claims request p =
      with_params (parse_tool_call_params libs.rt libs.decoder r.params) r.id session_id claims
        request p

  abbrev pub or_empty : Option String → String
  or_empty none = ""
  or_empty (some s) = s

  with_body : Result String → Option String → AgentClaims → Request → Proxy → Handled
  unfolding with_request
  with_body (err e) session_id claims request p =
      answer (bad_request "could not read request body") p
  with_body (ok body) session_id claims request p =
      if not (is_tool_call libs.rt libs.decoder body)
      then answer forwarded p
      else with_request (parse_request libs.rt libs.decoder body) (or_empty session_id) claims
          request p

  unfoldable pub handle_mcp : Option String → AgentClaims → Request → Proxy → Handled
  unfolding with_body
  handle_mcp session_id claims request p = with_body request.body session_id claims request p

  in_context : Response ⊎ Option String → AgentClaims → Request → Proxy → Handled
  unfolding handle_mcp
  in_context (inl response) claims request p = answer response p
  in_context (inr session_id) claims request p = handle_mcp session_id claims request p

  authenticated : Response ⊎ AgentClaims → Request → Proxy → Handled
  unfolding in_context
  authenticated (inl response) request p = answer response p
  authenticated (inr claims) request p =
      in_context (session_middleware libs.rt libs.decoder request.body request.session_header)
        claims request p

  -- All requests but those of /health.
  unfoldable pub handler : Request → Proxy → Handled
  unfolding authenticated
  handler request p =
      authenticated
        (auth_middleware libs.rt libs.auth request.authorization now.agent_fault p.store) request p

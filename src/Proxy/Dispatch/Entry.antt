-- ===== src/Proxy/Dispatch/Entry.antt =====
-- Complete mediation: no tool call reaches the upstream around authentication and the pipeline.
use truebearing.Base.{
  String, ◌≡◌, ◌≢◌, ◌⊎◌, inl, inr, refl, true, Option, some, ◌==◌, arith, eq_iff, ap, ◌∙◌, sym,
  Bool-cases,
}
use truebearing.Go.{Result, ok, err}
use truebearing.Proxy.Auth.{AgentClaims, auth_middleware}
use truebearing.Proxy.Auth.Refused.{auth_middleware-refused}
use truebearing.Proxy.Dispatch.{
  authenticated, check_escalation_status, get_status, handle_mcp, handler, in_context, or_empty,
  status_response, with_body, with_params, with_request,
}
use truebearing.Proxy.Govern.Mediation.{govern-IsGoverned, IsGoverned}
use truebearing.Proxy.Handler.{Incoming}
use truebearing.Proxy.Mcp.{
  is_tool_call, McpRequest, parse_request, parse_tool_call_params, session_middleware,
  ToolCallParams,
}
use truebearing.Proxy.Response.{Response, forwarded, missing_session_id}
use truebearing.Proxy.State.{Libraries, Proxy, Request, Conditions}
use truebearing.Store.Escalations.{get_escalation_status}

module _ (libs : Libraries) (now : Conditions) (p : Proxy) where
  -- What a forwarded tool call went through: the claims are authenticated, the session id is that of the
  -- header, tool and arguments are parsed from the body, and the call was governed.
  pub record IsMediated (request : Request) (body : String) : Type 0 where
    pub call : Incoming
    pub is_authenticated :
        auth_middleware libs.rt libs.auth request.authorization now.agent_fault p.store
        ≡ inr call.claims
    pub has_session : (call.session_id ≡ request.session_header) × (request.session_header ≢ "")
    pub rpc : McpRequest
    pub is_parsed : parse_request libs.rt libs.decoder body ≡ ok rpc
    pub has_params : parse_tool_call_params libs.rt libs.decoder rpc.params ≡ ok call.params
    pub is_governed : IsGoverned libs now call p

  status-not_forwarded :
      (r : Result String) (rpc_id id : String) → status_response libs now r rpc_id id ≢ forwarded
  unfolding status_response
  status-not_forwarded (err e) rpc_id id h = ground arith
  status-not_forwarded (ok status) rpc_id id h = ground arith

  virtual-not_forwarded :
      (rpc_id id : String) → check_escalation_status libs now rpc_id id p ≢ forwarded
  unfolding check_escalation_status
  virtual-not_forwarded rpc_id id h =
      let status =
        get_status libs now (get_escalation_status libs.rt now.status_fault id p.store) id in
      ground (arith, status-not_forwarded status rpc_id id)

  module _ (session_id : String) (claims : AgentClaims) (request : Request) where
    call_of : String → ToolCallParams → Incoming
    call_of rpc_id params = record {
      request = request;
      rpc_id = rpc_id;
      params = params;
      session_id = session_id;
      claims = claims;
    }

    with_params-forwarded :
        (r : Result ToolCallParams) (rpc_id : String)
        → (with_params libs now r rpc_id session_id claims request p).response ≡ forwarded
        → (params : ToolCallParams) × (r ≡ ok params)
          × IsGoverned libs now (call_of rpc_id params) p
    unfolding with_params call_of
    with_params-forwarded (err e) rpc_id h = ground arith
    with_params-forwarded (ok params) rpc_id h =
        elim (Bool-cases (params.name == "check_escalation_status")) [
          | inl v ↦ ground (
            arith,
            virtual-not_forwarded rpc_id (libs.rt.gjson_get params.arguments "escalation_id").text,
          )
          | inr v ↦
              (params, refl, govern-IsGoverned libs now (call_of rpc_id params) p (ground arith))
        ]

    with_request-forwarded :
        (r : Result McpRequest)
        → (with_request libs now r session_id claims request p).response ≡ forwarded
        → (rpc : McpRequest) × (params : ToolCallParams) × (r ≡ ok rpc)
          × (parse_tool_call_params libs.rt libs.decoder rpc.params ≡ ok params)
          × IsGoverned libs now (call_of rpc.id params) p
    unfolding with_request
    with_request-forwarded (err e) h = ground arith
    with_request-forwarded (ok rpc) h =
        let (params, parsed, governed) =
          with_params-forwarded (parse_tool_call_params libs.rt libs.decoder rpc.params) rpc.id h in
        (rpc, params, refl, parsed, governed)

  -- The context of a tool call is its session header, which is not empty.
  session_of_call :
      (body header : String)
      → is_tool_call libs.rt libs.decoder body ≡ true
      → (session_middleware libs.rt libs.decoder (ok body) header ≡ inl missing_session_id)
        ⊎ ((session_middleware libs.rt libs.decoder (ok body) header ≡ inr (some header))
            × (header ≢ ""))
  unfolding session_middleware
  session_of_call body header t = ground (arith, eq_iff header "")

  with_body-forwarded :
      (session_id : Option String) (claims : AgentClaims) (request : Request) (r : Result String)
      {body : String}
      → r ≡ ok body
      → is_tool_call libs.rt libs.decoder body ≡ true
      → (with_body libs now r session_id claims request p).response ≡ forwarded
      → (with_request libs now
          (parse_request libs.rt libs.decoder body)
          (or_empty libs now session_id)
          claims
          request
          p).response
        ≡ forwarded
  unfolding with_body
  with_body-forwarded session_id claims request (err e) b t h = ground arith
  with_body-forwarded session_id claims request (ok body') b t h = ground arith

  -- What the middlewares let on, with the context replaced by what it equals.
  after_context : Response ⊎ Option String → AgentClaims → Request → Response
  after_context (inl response) claims request = response
  after_context (inr session_id) claims request =
      (with_body libs now request.body session_id claims request p).response

  context_response :
      (claims : AgentClaims) (request : Request) {r r' : Response ⊎ Option String}
      → r ≡ r'
      → (in_context libs now r claims request p).response ≡ forwarded
      → after_context r' claims request ≡ forwarded
  unfolding after_context in_context handle_mcp
  context_response claims request {r} {r'} e h =
      ap (λ x. after_context x claims request) (sym e) ∙ same r ∙ h
    where
      same :
          (x : Response ⊎ Option String)
          → after_context x claims request ≡ (in_context libs now x claims request p).response
      same (inl response) = refl
      same (inr session_id) = refl

  in_context-forwarded :
      (claims : AgentClaims) (request : Request) {body : String}
      → auth_middleware libs.rt libs.auth request.authorization now.agent_fault p.store ≡ inr claims
      → request.body ≡ ok body
      → is_tool_call libs.rt libs.decoder body ≡ true
      → (in_context libs now
          (session_middleware libs.rt libs.decoder request.body request.session_header)
          claims
          request
          p).response
        ≡ forwarded
      → IsMediated request body
  unfolding call_of after_context
  in_context-forwarded claims request {body} authentic b t h =
      let at_body =
        ap (λ (r : Result String). session_middleware libs.rt libs.decoder r request.session_header)
          b in
      elim (session_of_call body request.session_header t) [
        | inl refused ↦ ground (arith, context_response claims request (at_body ∙ refused) h)
        | inr (context, named) ↦
            let (rpc, params, parsed, has_params, governed) =
              with_request-forwarded request.session_header claims request
                (parse_request libs.rt libs.decoder body)
                (with_body-forwarded (some request.session_header) claims request request.body b t
                  (context_response claims request (at_body ∙ context) h)) in
            record {
              call = call_of request.session_header claims request rpc.id params;
              is_authenticated = authentic;
              has_session = (refl, named);
              rpc = rpc;
              is_parsed = parsed;
              has_params = has_params;
              is_governed = governed;
            }
      ]

  authenticated-forwarded :
      (r : Response ⊎ AgentClaims) (request : Request) {body : String}
      → auth_middleware libs.rt libs.auth request.authorization now.agent_fault p.store ≡ r
      → request.body ≡ ok body
      → is_tool_call libs.rt libs.decoder body ≡ true
      → (authenticated libs now r request p).response ≡ forwarded
      → IsMediated request body
  unfolding authenticated
  authenticated-forwarded (inl response) request a b t h = ground (
    arith,
    auth_middleware-refused libs.rt libs.auth p.store request.authorization now.agent_fault,
    a ∙ ap inl h,
  )
  authenticated-forwarded (inr claims) request a b t h = in_context-forwarded claims request a b t h

  -- A request whose body is a tool call is forwarded upstream only after it was authenticated, carried a
  -- session id, and was governed with the claims, the session and the parameters that it came with.
  pub handler-IsMediated :
      (request : Request) {body : String}
      → request.body ≡ ok body
      → is_tool_call libs.rt libs.decoder body ≡ true
      → (handler libs now request p).response ≡ forwarded
      → IsMediated request body
  unfolding handler
  handler-IsMediated request {body} b t h =
      authenticated-forwarded
        (auth_middleware libs.rt libs.auth request.authorization now.agent_fault p.store) request
        refl b t h

-- ===== src/Proxy/Mcp.antt =====
-- pkg/mcpparse/parse.go and types.go, and internal/proxy/session.go: which requests are tool calls, and
-- the session header that these need.
use truebearing.Base.{
  String, ◌⊎◌, inl, inr, Bool, false, not, Option, none, some, [], ◌∷◌, ◌==◌, if◌then◌else◌,
}
use truebearing.Go.{Runtime, Result, ok, err, errorf, wrapf}
use truebearing.Proxy.Response.{Response, bad_request, missing_session_id}

-- A `json.RawMessage` is its text.
pub record McpRequest : Type 0 where
  pub json_rpc : String
  pub id : String
  pub method : String
  pub params : String

pub record ToolCallParams : Type 0 where
  pub name : String
  pub arguments : String

-- `json.Unmarshal` into the two structs.
pub record Decoder : Type 0 where
  pub decode_request : String → Result McpRequest
  pub decode_params : String → Result ToolCallParams

module _ (rt : Runtime) (decoder : Decoder) where
  check_version : Result McpRequest → Result McpRequest
  check_version (err e) = err (wrapf ("parsing MCP request: " ∷ []) e)
  check_version (ok r) =
      if not (r.json_rpc == "2.0")
      then err (
          errorf
            ("parsing MCP request: jsonrpc field must be \"2.0\", got " ∷ rt.quote r.json_rpc ∷ []))
      else ok r

  unfoldable pub parse_request : String → Result McpRequest
  unfolding check_version
  parse_request body = check_version (decoder.decode_request body)

  check_name : Result ToolCallParams → Result ToolCallParams
  check_name (err e) = err (wrapf ("parsing tool call params: " ∷ []) e)
  check_name (ok p) =
      if p.name == ""
      then err (errorf ("parsing tool call params: name field is required" ∷ []))
      else ok p

  unfoldable pub parse_tool_call_params : String → Result ToolCallParams
  unfolding check_name
  parse_tool_call_params raw = check_name (decoder.decode_params raw)

  unfoldable pub is_tool : McpRequest → Bool
  is_tool r = r.method == "tools/call"

  is_tool_request : Result McpRequest → Bool
  unfolding is_tool
  is_tool_request (err e) = false
  is_tool_request (ok r) = is_tool r

  unfoldable pub is_tool_call : String → Bool
  unfolding parse_request is_tool_request
  is_tool_call body = if body == "" then false else is_tool_request (parse_request body)

  -- The middleware: the session id in the context of the next handler, if it puts one there.
  -- `body` is what reading the body gives, and `header` the session header, empty if absent.
  unfoldable pub session_middleware : Result String → String → Response ⊎ Option String
  unfolding is_tool_call
  session_middleware (err e) header = inl (bad_request "could not read request body")
  session_middleware (ok body) header =
      if is_tool_call body
      then if header == "" then inl missing_session_id else inr (some header)
      else inr none

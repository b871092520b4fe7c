-- ===== src/Proxy/Response.antt =====
-- What internal/proxy answers to a request: one constructor for each function that writes a response,
-- and `forwarded` for `p.rp.ServeHTTP`. The JSON of a body is not modelled.
use truebearing.Base.{String}
use truebearing.Engine.Types.{Decision}

pub data Response : Type 0 where
  unauthorized : String → Response
  missing_session_id : Response
  bad_request : String → Response
  gone : String → Response
  forwarded : Response
  rpc_error : String → String → String → Response
  rpc_deny : String → String → Decision → Response
  rpc_escalated : String → String → Response
  rpc_escalation_status : String → String → String → Response

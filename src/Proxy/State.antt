-- ===== src/Proxy/State.antt =====
-- The state of `Proxy` in internal/proxy/proxy.go, one request as the handler sees it, and what the
-- clock, the generator of identifiers, the database driver and the trace file do while it is handled.
use truebearing.Base.{ℤ, String, Bool, Option, none, List}
use truebearing.Go.{Runtime, Float64, GoError, Result}
use truebearing.Audit.{Signer}
use truebearing.Engine.StoreBackend.{ReadFaults}
use truebearing.Policy.{Policy}
use truebearing.Proxy.Auth.{AuthLibraries}
use truebearing.Proxy.Mcp.{Decoder}
use truebearing.Proxy.Notify.{Target, NotifyPayload}
use truebearing.Proxy.PolicyCache.{PolicyLru}
use truebearing.Proxy.Response.{Response}
use truebearing.Store.Events.{AppendStage}
use truebearing.Store.Rows.{Store}

-- The libraries that the handler calls, and `costPerToolCall` as a float64.
pub record Libraries : Type 0 where
  pub rt : Runtime
  pub auth : AuthLibraries
  pub decoder : Decoder
  pub signer : Signer
  pub cost_per_tool_call : Float64

pub record TraceEntry : Type 0 where
  pub session_id : String
  pub agent_name : String
  pub tool_name : String
  pub arguments : String
  pub requested_at : String

-- `tracing` tells whether a trace writer is set, and `trace` is its file.
pub record Proxy : Type 0 where
  pub store : Store
  pub live_pol : Policy
  pub pol_cache : PolicyLru
  pub signing_key : Option String
  pub audit_strict : Bool
  pub audit_write_failures : ℤ
  pub admin_port : ℤ
  pub tracing : Bool
  pub trace : List TraceEntry

-- The Authorization and session headers are empty if absent; `headers` is `r.Header.Get`.
pub record Request : Type 0 where
  pub authorization : String
  pub session_header : String
  pub headers : String → String
  pub body : Result String

-- One error for each statement that fails. `duplicate` and `refused` are the driver's errors for a
-- taken primary key and for a missing session.
pub record Conditions : Type 0 where
  pub requested_at : ℤ
  pub now : ℤ
  pub audit_id : String
  pub escalation_id : String
  pub agent_fault : Option GoError
  pub status_fault : Option GoError
  pub trace_fault : Option GoError
  pub session_fault : Option GoError
  pub create_fault : Option GoError
  pub read_faults : ReadFaults
  pub append_fault : Option (AppendStage × GoError)
  pub audit_fault : Option GoError
  pub taint_fault : Option GoError
  pub counter_fault : Option GoError
  pub escalation_fault : Option GoError
  pub duplicate : GoError
  pub refused : GoError

-- What the handler leaves: the response, the state, and the notification that it sends.
pub record Handled : Type 0 where
  pub response : Response
  pub state : Proxy
  pub notification : Option (Target × NotifyPayload)

abbrev pub answer : Response → Proxy → Handled
answer response p = record { response = response; state = p; notification = none }

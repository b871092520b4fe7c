-- ===== src/Session.antt =====
-- internal/session/session.go: the session that the pipeline reads.
use truebearing.Base.{ℤ, String, Bool}
use truebearing.Go.{Float64}

pub record Session : Type 0 where
  pub id : String
  pub agent_name : String
  pub policy_fingerprint : String
  pub tainted : Bool
  pub tool_call_count : ℤ
  pub estimated_cost_usd : Float64
  pub terminated : Bool

-- ===== src/Store/Rows.antt =====
-- The rows of internal/store: sessions.go, events.go, escalations.go, agents.go, and the audit record
-- of pkg/audit/types.go. A nullable column is an `Option`.
use truebearing.Base.{
  ℕ, ℤ, String, ◌≡◌, Bool, Option, none, some, List, [], arith, ◌==◌, eq_iff, if◌then◌else◌,
}
use truebearing.Go.{Float64, GoError, no_rows}

pub record SessionRow : Type 0 where
  pub id : String
  pub agent_name : String
  pub policy_fingerprint : String
  pub tainted : Bool
  pub tool_call_count : ℤ
  pub estimated_cost_usd : Float64
  pub terminated : Bool
  pub created_at : ℤ
  pub last_seen_at : ℤ

pub record SessionEvent : Type 0 where
  pub seq : ℕ
  pub session_id : String
  pub tool_name : String
  pub arguments_json : Option String
  pub decision : String
  pub policy_rule : Option String
  pub recorded_at : ℤ

pub record Escalation : Type 0 where
  pub id : String
  pub session_id : String
  pub seq : ℕ
  pub tool_name : String
  pub arguments_json : Option String
  pub status : String
  pub reason : Option String
  pub created_at : ℤ
  pub resolved_at : Option ℤ

pub record Agent : Type 0 where
  pub name : String
  pub public_key_pem : String
  pub policy_file : String
  pub allowed_tools_json : String
  pub registered_at : ℤ
  pub jwt_preview : String
  pub revoked_at : Option ℤ

-- A record as pkg/audit/types.go declares it.
pub record AuditRecord : Type 0 where
  pub id : String
  pub session_id : String
  pub seq : ℕ
  pub agent_name : String
  pub tool_name : String
  pub arguments_sha256 : String
  pub decision : String
  pub decision_reason : String
  pub policy_fingerprint : String
  pub agent_jwt_sha256 : String
  pub client_trace_id : String
  pub delegation_chain : String
  pub recorded_at : ℤ
  pub signature : String

-- Its row in the table, with NULL for an empty reason, trace or chain.
pub record AuditRow : Type 0 where
  pub id : String
  pub session_id : String
  pub seq : ℕ
  pub agent_name : String
  pub tool_name : String
  pub arguments_sha256 : String
  pub decision : String
  pub decision_reason : Option String
  pub policy_fingerprint : String
  pub agent_jwt_sha256 : String
  pub client_trace_id : Option String
  pub delegation_chain : Option String
  pub recorded_at : ℤ
  pub signature : String

pub record Store : Type 0 where
  pub sessions : List SessionRow
  pub session_events : List SessionEvent
  pub audit_log : List AuditRow
  pub agents : List Agent
  pub escalations : List Escalation

abbrev pub empty_store : Store
empty_store = record {
  sessions = [];
  session_events = [];
  audit_log = [];
  agents = [];
  escalations = [];
}

-- The empty text is stored as NULL, and NULL is read as the empty text.
unfoldable pub nullable_string : String → Option String
nullable_string s = if s == "" then none else some s

abbrev pub from_null : Option String → String
from_null none = ""
from_null (some s) = s

pub from_null-nullable_string : (s : String) → from_null (nullable_string s) ≡ s
unfolding nullable_string
from_null-nullable_string s = ground (arith, eq_iff s "")

-- `sql.ErrNoRows`
abbrev pub sql_no_rows : GoError
sql_no_rows = record { kind = no_rows; message = "sql: no rows in result set" }

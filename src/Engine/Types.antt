-- ===== src/Engine/Types.antt =====
-- internal/engine/types.go, evaluator.go and backend.go: actions, decisions, tool calls, and the
-- interfaces `Evaluator` and `QueryBackend`. A time is its nanoseconds since the Unix epoch.
use truebearing.Base.{
  ℕ, ◌*◌, ◌-◌, ℤ, negsuc, String, Bool, Option, none, some, List, lookup, ◌==◌, ◌||◌,
}
use truebearing.Go.{Result}
use truebearing.Policy.{Policy, ToolPolicy}
use truebearing.Session.{Session}

pub data Action : Type 0 where
  allow deny escalate shadow_deny : Action

-- `string(action)`
abbrev pub action_string : Action → String
action_string allow = "allow"
action_string deny = "deny"
action_string escalate = "escalate"
action_string shadow_deny = "shadow_deny"

pub record DenyFeedback : Type 0 where
  pub reason_code : String
  pub unsatisfied_prerequisites : List String
  pub suggestion : String

pub record Decision : Type 0 where
  pub action : Action
  pub reason : String
  pub rule_id : String
  pub feedback : Option DenyFeedback

-- `Decision{Action: Allow}`
abbrev pub allowed : Decision
allowed = record { action = allow; reason = ""; rule_id = ""; feedback = none }

-- A `Deny` or an `Escalate` with its feedback, in the order reason, rule, code, prerequisites,
-- suggestion.
abbrev pub refusal : Action → String → String → String → List String → String → Decision
refusal action reason rule_id code prerequisites suggestion = record {
  action = action;
  reason = reason;
  rule_id = rule_id;
  feedback = some (record {
    reason_code = code;
    unsatisfied_prerequisites = prerequisites;
    suggestion = suggestion;
  });
}

pub record ToolCall : Type 0 where
  pub session_id : String
  pub agent_name : String
  pub tool_name : String
  pub arguments : String
  pub agent_env : String
  pub parent_agent : String
  pub requested_at : ℤ

-- The zero `time.Time` is the start of the year 1.
abbrev pub zero_time : ℤ
zero_time = negsuc (62135596800 * 1000000000 - 1)

abbrev pub Evaluator : Type 0
Evaluator = ToolCall → Session → Policy → Result Decision

pub record SessionEventEntry : Type 0 where
  pub tool_name : String
  pub decision : String
  pub recorded_at : ℤ

pub record ApprovedEscalationEntry : Type 0 where
  pub tool_name : String
  pub args_hash : String

pub record QueryBackend : Type 0 where
  pub get_session_events : String → Result (List SessionEventEntry)
  pub count_session_events_since : String → String → ℤ → Result ℕ
  pub has_approved_escalation : String → String → String → Result Bool
  pub get_agent_allowed_tools : String → Result (List String)

-- `tp, ok := pol.Tools[name]`
abbrev pub tool_policy : Policy → String → Option ToolPolicy
tool_policy pol name = lookup pol.tools name

-- `ev.Decision == string(Allow) || ev.Decision == string(ShadowDeny)`
abbrev pub was_executed : String → Bool
was_executed decision = decision == action_string allow || decision == action_string shadow_deny

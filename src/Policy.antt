-- ===== src/Policy.antt =====
-- internal/policy/types.go: the parsed policy. A Go map is an association list, a pointer that may
-- be nil an `Option`, and a string type keeps its strings.
pub mod Parse
pub mod Lint
use truebearing.Base.{ℤ, String, Bool, Option, List}
use truebearing.Go.{Float64, Value}

abbrev pub EnforcementMode : Type 0
EnforcementMode = String

abbrev pub enforcement_shadow : EnforcementMode
enforcement_shadow = "shadow"

abbrev pub enforcement_block : EnforcementMode
enforcement_block = "block"

pub record SessionPolicy : Type 0 where
  pub max_history : ℤ
  pub max_duration_seconds : ℤ
  pub require_env : String

pub record BudgetPolicy : Type 0 where
  pub max_tool_calls : ℤ
  pub max_cost_usd : Float64

pub record RateLimitPolicy : Type 0 where
  pub max_calls : ℤ
  pub window_seconds : ℤ

abbrev pub ContentMatchMode : Type 0
ContentMatchMode = String

abbrev pub content_match_any : ContentMatchMode
content_match_any = "any"

abbrev pub content_match_all : ContentMatchMode
content_match_all = "all"

pub record ContentPredicate : Type 0 where
  pub argument : String
  pub operator : String
  pub value : String

pub record PriorNRule : Type 0 where
  pub tool : String
  pub count : ℤ

pub record SequencePolicy : Type 0 where
  pub only_after : List String
  pub never_after : List String
  pub requires_prior_n : Option PriorNRule

pub record TaintPolicy : Type 0 where
  pub applies : Bool
  pub label : String
  pub clears : Bool

pub record EscalationConfig : Type 0 where
  pub webhook_url : String

pub record EscalateRule : Type 0 where
  pub argument_path : String
  pub operator : String
  pub value : Value

pub record ToolPolicy : Type 0 where
  pub enforcement_mode : EnforcementMode
  pub sequence : SequencePolicy
  pub taint : TaintPolicy
  pub escalate_when : Option EscalateRule
  pub never_when : List ContentPredicate
  pub never_when_match : ContentMatchMode
  pub rate_limit : Option RateLimitPolicy

pub record Policy : Type 0 where
  pub version : String
  pub agent : String
  pub enforcement_mode : EnforcementMode
  pub session : SessionPolicy
  pub budget : BudgetPolicy
  pub may_use : List String
  pub tools : List (String × ToolPolicy)
  pub escalation : Option EscalationConfig
  pub fingerprint : String
  pub source_path : String

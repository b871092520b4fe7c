-- ===== src/Engine/Escalation/Condition.antt =====
-- What lets a call with an `escalate_when` rule of internal/engine/escalation.go pass.
use truebearing.Base.{String, ◌≡◌, ◌≢◌, ◌↔◌, ◌⊎◌, inl, inr, Bool, true, false, some, arith, eq_iff}
use truebearing.Go.{ok, Runtime}
use truebearing.Engine.Escalation.{
  apply_escalation_operator, evaluate, evaluate-IsUnescalated, Passes, rule_of,
}
use truebearing.Engine.Types.{allowed, QueryBackend, ToolCall, tool_policy}
use truebearing.Policy.{EscalateRule, Policy}
use truebearing.Session.{Session}
use truebearing.Engine.Escalation.Operators.{applied_iff, Compares}

module _ (rt : Runtime) where
  -- The path of a rule in gjson's notation: without a leading `$.` or `$`.
  abbrev pub path_of : EscalateRule → String
  path_of rule = rt.trim_prefix (rt.trim_prefix rule.argument_path "$.") "$"

  module _ (store : QueryBackend) where
    -- The argument of the rule is there, and the condition does not hold of it, or it holds and the call
    -- was approved for its session, its tool and the hash of its arguments.
    pub record IsUnheldBy (rule : EscalateRule) (call : ToolCall) (sess : Session) : Type 0 where
      pub path : path_of rule ≢ ""
      pub present : (rt.gjson_get call.arguments (path_of rule)).exists ≡ true
      pub condition :
          Compares rt (rt.gjson_get call.arguments (path_of rule)) rule.operator rule.value false
          ⊎ (Compares rt (rt.gjson_get call.arguments (path_of rule)) rule.operator rule.value true
              × (store.has_approved_escalation sess.id call.tool_name (rt.sha256_hex call.arguments)
                  ≡ ok true))

    abbrev pub IsUnheld : ToolCall → Session → Policy → Type 0
    IsUnheld call sess pol =
        (rule : EscalateRule)
        → rule_of (tool_policy pol call.tool_name) ≡ some rule
        → IsUnheldBy rule call sess

    module _ (rule : EscalateRule) (call : ToolCall) (sess : Session) where
      compares :
          (b : Bool)
          → (apply_escalation_operator rt
                (rt.gjson_get call.arguments (path_of rule))
                rule.operator
                rule.value
              ≡ ok b)
            ↔ Compares rt (rt.gjson_get call.arguments (path_of rule)) rule.operator rule.value b
      compares =
          applied_iff rt (rt.gjson_get call.arguments (path_of rule)) rule.value rule.operator

      unheld : Passes rt store rule call sess → IsUnheldBy rule call sess
      unheld p = record {
        path = λ e. ground (arith, p.path, (eq_iff (path_of rule) "").1 e);
        present = p.present;
        condition = elim p.condition [
          | inl c ↦ inl ((compares false).0 c)
          | inr (c, approved) ↦ inr ((compares true).0 c, approved)
        ];
      }

      passes : IsUnheldBy rule call sess → Passes rt store rule call sess
      passes u = record {
        path = ground (arith, u.path, eq_iff (path_of rule) "");
        present = u.present;
        condition = elim u.condition [
          | inl c ↦ inl ((compares false).1 c)
          | inr (c, approved) ↦ inr ((compares true).1 c, approved)
        ];
      }

    -- Escalation allows a call exactly if the tool has no rule, or its argument is there and the rule's
    -- operator and value do not hold of it, or they hold and the call was approved for this session, tool
    -- and hash of the arguments. The six comparisons are those of numbers, where a value of text counts as
    -- 0, and a rule with another operator, or with a pattern that does not compile, lets no call pass.
    pub evaluate-IsUnheld :
        (call : ToolCall) (sess : Session) (pol : Policy)
        → (evaluate rt store call sess pol ≡ ok allowed) ↔ IsUnheld call sess pol
    evaluate-IsUnheld call sess pol =
        let exact = evaluate-IsUnescalated rt store call sess pol in
        (
          λ h rule e. unheld rule call sess (exact.0 h rule e),
          λ h. exact.1 (λ rule e. passes rule call sess (h rule e)),
        )

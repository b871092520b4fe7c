-- ===== src/Engine/Escalation.antt =====
-- internal/engine/escalation.go: a pause for human review, unless the same call was approved.
pub mod Operators
pub mod Condition
use mathlib.Core.Option.{some-injective}
use mathlib.Core.Path.{subst}
use truebearing.Base.{
  String, ◌≡◌, ◌↔◌, ◌⊎◌, refl, Bool, true, false, not, Option, none, some, [], ◌∷◌, arith, ◌==◌,
  ◌||◌, if◌then◌else◌,
}
use truebearing.Go.{
  Runtime, Result, ok, err, text, errorf, wrapf, GjsonResult, Value, Float64, zero_float, float64,
  int, int64, float32, other,
}
use truebearing.Engine.Types.{
  escalate, allowed, refusal, Decision, Evaluator, ToolCall, QueryBackend, tool_policy,
}
use truebearing.Engine.Outcome.{Answers, IsAnswer}
use truebearing.Policy.{Policy, ToolPolicy, EscalateRule}
use truebearing.Session.{Session}

abbrev pub rule_of : Option ToolPolicy → Option EscalateRule
rule_of none = none
rule_of (some tp) = tp.escalate_when

abbrev is_numeric : String → Bool
is_numeric op = op == ">" || op == "<" || op == ">=" || op == "<=" || op == "==" || op == "!="

module _ (rt : Runtime) where
  unfoldable pub to_float64 : Value → Float64
  to_float64 (float64 n) = n
  to_float64 (int n) = rt.float_of_int n
  to_float64 (int64 n) = rt.float_of_int n
  to_float64 (float32 n) = rt.float_of_float32 n
  to_float64 (other s) = zero_float

  unfoldable pub apply_numeric_op : Float64 → String → Float64 → Result Bool
  apply_numeric_op actual operator threshold =
      if operator == ">"
      then ok (rt.float_lt threshold actual)
      else if operator == "<"
      then ok (rt.float_lt actual threshold)
      else if operator == ">="
      then ok (rt.float_le threshold actual)
      else if operator == "<="
      then ok (rt.float_le actual threshold)
      else if operator == "=="
      then ok (rt.float_eq actual threshold)
      else if operator == "!="
      then ok (not (rt.float_eq actual threshold))
      else err (errorf ("unreachable: unknown numeric operator " ∷ rt.quote operator ∷ []))

  regexp_result : Result (String → Bool) → String → String → Result Bool
  regexp_result (err e) pattern s =
      err (wrapf ("compiling regexp pattern " ∷ rt.quote pattern ∷ ": " ∷ []) e)
  regexp_result (ok re) pattern s = ok (re s)

  unfoldable pub apply_escalation_operator : GjsonResult → String → Value → Result Bool
  unfolding to_float64 apply_numeric_op regexp_result
  apply_escalation_operator actual operator threshold =
      if is_numeric operator
      then apply_numeric_op actual.number operator (to_float64 threshold)
      else if operator == "contains"
      then ok (rt.has_substring actual.text (rt.show_value threshold))
      else if operator == "matches"
      then regexp_result (rt.regexp_compile (rt.show_value threshold)) (rt.show_value threshold)
          actual.text
      else err (errorf ("unsupported escalate_when operator " ∷ rt.quote operator ∷ []))

  -- `$.field.sub` in gjson's notation
  abbrev pub gjson_path : EscalateRule → String
  gjson_path rule = rt.trim_prefix (rt.trim_prefix rule.argument_path "$.") "$"

  judge_approval : Result Bool → EscalateRule → ToolCall → Session → Result Decision
  judge_approval (err e) rule call sess = err (
      wrapf
        ("checking approved escalation for session "
          ∷ rt.quote sess.id
          ∷ " tool "
          ∷ rt.quote call.tool_name
          ∷ ": "
          ∷ [])
        e)
  judge_approval (ok true) rule call sess = ok allowed
  judge_approval (ok false) rule call sess = ok (
      refusal escalate
        (text (
          "escalate_when: argument at "
          ∷ rt.quote rule.argument_path
          ∷ " is "
          ∷ rule.operator
          ∷ " "
          ∷ rt.show_value rule.value
          ∷ []))
        "escalation" "escalation_pending" []
        "This action requires human approval. Poll check_escalation_status with the returned escalation_id to retry once an operator approves.")

  module _ (store : QueryBackend) where
    -- the approval of this call, by the hash of its arguments
    abbrev pub approval : ToolCall → Session → Result Bool
    approval call sess =
        store.has_approved_escalation sess.id call.tool_name (rt.sha256_hex call.arguments)

    judge_trigger : Result Bool → EscalateRule → ToolCall → Session → Result Decision
    unfolding judge_approval
    judge_trigger (err e) rule call sess =
        err (wrapf ("evaluating escalate_when for tool " ∷ rt.quote call.tool_name ∷ ": " ∷ []) e)
    judge_trigger (ok false) rule call sess = ok allowed
    judge_trigger (ok true) rule call sess = judge_approval (approval call sess) rule call sess

    unfoldable pub check_rule : EscalateRule → ToolCall → Session → Result Decision
    unfolding judge_trigger
    check_rule rule call sess =
        let result = rt.gjson_get call.arguments (gjson_path rule) in
        if gjson_path rule == ""
        then err (
            errorf (
              "escalate_when.argument_path "
              ∷ rt.quote rule.argument_path
              ∷ " for tool "
              ∷ rt.quote call.tool_name
              ∷ " resolves to an empty gjson path"
              ∷ []))
        else if not result.exists
        then err (
            errorf (
              "escalate_when.argument_path "
              ∷ rt.quote rule.argument_path
              ∷ " not found in arguments for tool "
              ∷ rt.quote call.tool_name
              ∷ " (fail closed)"
              ∷ []))
        else judge_trigger (apply_escalation_operator result rule.operator rule.value) rule call
            sess

    unfoldable pub check_escalation : Option EscalateRule → ToolCall → Session → Result Decision
    unfolding check_rule
    check_escalation none call sess = ok allowed
    check_escalation (some rule) call sess = check_rule rule call sess

    unfoldable pub evaluate : Evaluator
    unfolding check_escalation
    evaluate call sess pol = check_escalation (rule_of (tool_policy pol call.tool_name)) call sess

    check_escalation-IsAnswer :
        (o : Option EscalateRule) (call : ToolCall) (sess : Session)
        → IsAnswer (check_escalation o call sess)
    unfolding check_escalation
    check_escalation-IsAnswer o call sess = ground arith

    pub evaluate-Answers : Answers evaluate
    unfolding evaluate
    evaluate-Answers call sess pol =
        check_escalation-IsAnswer (rule_of (tool_policy pol call.tool_name)) call sess

    -- What lets a call with an escalation rule pass: the argument is there, and the condition does
    -- not hold of it, or holds and this very call was approved.
    pub record Passes (rule : EscalateRule) (call : ToolCall) (sess : Session) : Type 0 where
      pub path : (gjson_path rule == "") ≡ false
      pub present : (rt.gjson_get call.arguments (gjson_path rule)).exists ≡ true
      pub condition :
          let triggered =
            apply_escalation_operator
              (rt.gjson_get call.arguments (gjson_path rule))
              rule.operator
              rule.value in
          (triggered ≡ ok false) ⊎ ((triggered ≡ ok true) × (approval call sess ≡ ok true))

    check_rule-Passes :
        (rule : EscalateRule) (call : ToolCall) (sess : Session)
        → (check_rule rule call sess ≡ ok allowed) ↔ Passes rule call sess
    unfolding check_rule
    check_rule-Passes rule call sess = (λ h. ground arith, λ p. ground arith)

    -- The rule of the tool, if there is one, lets the call pass.
    abbrev pub IsUnescalated : ToolCall → Session → Policy → Type 0
    IsUnescalated call sess pol =
        (rule : EscalateRule)
        → rule_of (tool_policy pol call.tool_name) ≡ some rule
        → Passes rule call sess

    check_escalation_iff :
        (o : Option EscalateRule) (call : ToolCall) (sess : Session)
        → (check_escalation o call sess ≡ ok allowed)
          ↔ ((rule : EscalateRule) → o ≡ some rule → Passes rule call sess)
    unfolding check_escalation
    check_escalation_iff none call sess = (λ h rule e. cc, λ h. refl)
    check_escalation_iff (some rule) call sess = (
      λ h found e.
          subst (λ r. Passes r call sess) (some-injective _ _ e)
            ((check_rule-Passes rule call sess).0 h),
      λ h. (check_rule-Passes rule call sess).1 (h rule refl),
    )

    -- Escalation allows a call exactly if the tool has no rule, or its argument is there and either does not
    -- trigger the rule or has been approved for this session, tool and hash of the arguments.
    pub evaluate-IsUnescalated :
        (call : ToolCall) (sess : Session) (pol : Policy)
        → (evaluate call sess pol ≡ ok allowed) ↔ IsUnescalated call sess pol
    unfolding evaluate
    evaluate-IsUnescalated call sess pol =
        check_escalation_iff (rule_of (tool_policy pol call.tool_name)) call sess

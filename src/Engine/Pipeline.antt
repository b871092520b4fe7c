-- ===== src/Engine/Pipeline.antt =====
-- internal/engine/pipeline.go: the ordered chain of evaluators. `Evaluate` returns the decision
-- beside the session, whose taint flag it may change; its debug log is not modelled.
pub mod FirstFailure
pub mod Modes
use truebearing.Base.{
  String, ◌≡◌, ◌↔◌, ◌⊎◌, inl, inr, refl, Bool, true, false, not, ◌&&◌, Option, none, some, List, [],
  ◌∷◌, ◌++◌, arith, ◌==◌, ◌||◌, eq_iff, if◌then◌else◌,
}
use truebearing.Go.{Result, ok, err, text}
use truebearing.Engine.Types.{
  Action, allow, deny, escalate, shadow_deny, Decision, allowed, Evaluator, ToolCall, tool_policy,
}
use truebearing.Policy.{Policy, ToolPolicy, EnforcementMode, enforcement_shadow}
use truebearing.Session.{Session}

abbrev pub own_mode : Option ToolPolicy → EnforcementMode
own_mode none = ""
own_mode (some tp) = tp.enforcement_mode

-- The mode of the tool, if it sets one, or the mode of the policy.
unfoldable pub effective_mode : Policy → String → EnforcementMode
effective_mode pol name =
    let own = own_mode (tool_policy pol name) in
    if not (own == "") then own else pol.enforcement_mode

mutate_taint : Option ToolPolicy → Session → Session
mutate_taint none sess = sess
mutate_taint (some tp) sess =
    let cleared =
      if tp.taint.clears && sess.tainted then record sess { tainted = false } else sess in
    if tp.taint.applies then record cleared { tainted = true } else cleared

unfoldable pub apply_taint_mutations : ToolCall → Session → Policy → Session
unfolding mutate_taint
apply_taint_mutations call sess pol = mutate_taint (tool_policy pol call.tool_name) sess

unfoldable pub is_shadow : Policy → ToolCall → Bool
unfolding effective_mode
is_shadow pol call = effective_mode pol call.tool_name == enforcement_shadow

-- The decision for an evaluator's error: always a denial.
abbrev pub internal_error : String → Decision
internal_error message = record {
  action = deny;
  reason = text ("evaluator error: " ∷ message ∷ []);
  rule_id = "internal_error";
  feedback = none;
}

unfoldable pub convert_shadow : ToolCall → Policy → Decision → Decision
unfolding is_shadow
convert_shadow call pol d = if is_shadow pol call then record d { action = shadow_deny } else d

-- One round of the loop over the stages; `later` is what the rest of it returns.
after_stage :
    Result Decision → ToolCall → Session → Policy → Decision × Session → Decision × Session
unfolding convert_shadow
after_stage (err e) call sess pol later = (internal_error e.message, sess)
after_stage (ok d) call sess pol later = elim d.action [
  | allow ↦ later
  | _ ↦ (convert_shadow call pol d, sess)
]

unfoldable pub evaluate : List Evaluator → ToolCall → Session → Policy → Decision × Session
unfolding apply_taint_mutations after_stage
evaluate [] call sess pol = (allowed, apply_taint_mutations call sess pol)
evaluate (ev ∷ stages) call sess pol =
    let later = evaluate stages call sess pol in after_stage (ev call sess pol) call sess pol later

-- ===== src/Policy/Lint/Fields.antt =====
-- internal/policy/lint.go: the rules on the fields of the whole policy, L001, L005, L006, L007, L009,
-- L011, L016 and L020.
use truebearing.Base.{pos, eqb_ℤ, String, Bool, not, ◌&&◌, ◌||◌, List, [], ◌∷◌, ◌==◌, is_empty, any}
use truebearing.Go.{Runtime, zero_float}
use truebearing.Policy.{enforcement_block, enforcement_shadow, Policy, ToolPolicy}
use truebearing.Policy.Lint.Results.{error, info, LintResult, report_if, result, warning}

unfoldable pub lint_l001 : Policy → List LintResult
lint_l001 p = report_if (is_empty p.may_use) (
    result "L001" error (
      "may_use is empty or missing: every agent must declare the tools it is permitted to call"
      ∷ []))

unfoldable pub lint_l005 : Policy → List LintResult
lint_l005 p = report_if (p.enforcement_mode == "") (
    result "L005" warning (
      "enforcement_mode is not set; defaulting to shadow (violations are logged but not blocked)"
      ∷ []))

unfoldable pub lint_l006 : Runtime → Policy → List LintResult
lint_l006 rt p =
    report_if
      (eqb_ℤ p.budget.max_tool_calls (pos 0) && rt.float_eq p.budget.max_cost_usd zero_float)
      (result "L006" warning
        ("no budget block defined: sessions have no tool call or cost ceiling" ∷ []))

unfoldable pub lint_l007 : Policy → List LintResult
lint_l007 p = report_if (eqb_ℤ p.session.max_history (pos 0)) (
    result "L007" warning
      ("session.max_history is not set; the pipeline will apply a default limit at runtime" ∷ []))

unfoldable pub lint_l009 : Policy → List LintResult
lint_l009 p = report_if (p.enforcement_mode == enforcement_shadow) (
    result "L009" info (
      "enforcement_mode is shadow: policy violations are logged but not blocked; change to block for production enforcement"
      ∷ []))

abbrev applies_taint : String × ToolPolicy → Bool
applies_taint tool = tool.1.taint.applies

abbrev clears_taint : String × ToolPolicy → Bool
clears_taint tool = tool.1.taint.clears

unfoldable pub lint_l011 : Policy → List LintResult
lint_l011 p = report_if (any applies_taint p.tools && not (any clears_taint p.tools)) (
    result "L011" warning (
      "a tool has taint.applies: true but no tool has taint.clears: true; once the session is tainted it can never be untainted"
      ∷ []))

unfoldable pub lint_l016 : Runtime → Policy → List LintResult
lint_l016 rt p = report_if (not (p.session.require_env == "")) (
    result "L016" warning (
      "session.require_env is "
      ∷ rt.quote p.session.require_env
      ∷ ": register agents with --env "
      ∷ p.session.require_env
      ∷ "; agents without a matching env claim will be denied by the EnvEvaluator"
      ∷ []))

abbrev blocks : String × ToolPolicy → Bool
blocks tool = tool.1.enforcement_mode == enforcement_block

unfoldable pub lint_l020 : Policy → Bool → List LintResult
lint_l020 p has_deployment_history =
    let uses_block = p.enforcement_mode == enforcement_block || any blocks p.tools in
    report_if (not has_deployment_history && uses_block) (
      result "L020" warning (
        "enforcement_mode is block but this policy fingerprint has no audit history; consider starting with enforcement_mode: shadow to observe enforcement before blocking — use `truebearing audit query` to review what would have been blocked"
        ∷ []))

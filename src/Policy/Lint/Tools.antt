-- ===== src/Policy/Lint/Tools.antt =====
-- internal/policy/lint.go: the rules on each tool, L002 to L004, L008, L010 and L012.
use truebearing.Base.{
  pos, leb_ℤ, String, Bool, true, false, not, ◌&&◌, Option, none, some, List, [], ◌∷◌, ◌++◌, ◌==◌,
  contains,
}
use truebearing.Go.{Runtime}
use truebearing.Policy.{EscalateRule, EscalationConfig, Policy, PriorNRule, ToolPolicy}
use truebearing.Policy.Lint.Results.{error, for_each, LintResult, report_if, result, warning}

-- The keys of the operator map.
abbrev pub valid_escalate_operators : List String
valid_escalate_operators = ">" ∷ "<" ∷ ">=" ∷ "<=" ∷ "==" ∷ "!=" ∷ "contains" ∷ "matches" ∷ []

module _ (rt : Runtime) (p : Policy) where
  unfoldable pub unlisted : String → ToolPolicy → List LintResult
  unlisted name tp = report_if (not (contains p.may_use name)) (
      result "L002" error
        ("tool " ∷ rt.quote name ∷ " is defined in tools: but not listed in may_use" ∷ []))

  unfoldable pub lint_l002 : List LintResult
  unfolding unlisted
  lint_l002 = for_each unlisted p.tools

  -- The inner loops of L003 and L004.
  unfoldable pub unlisted_deps : String → String → String → List String → List LintResult
  unlisted_deps code name field [] = []
  unlisted_deps code name field (dep ∷ deps) =
      report_if (not (contains p.may_use dep)) (
        result code error
          ("tool " ∷ rt.quote name ∷ field ∷ rt.quote dep ∷ " which is not in may_use" ∷ []))
      ++ unlisted_deps code name field deps

  unfoldable pub only_after_deps : String → ToolPolicy → List LintResult
  unfolding unlisted_deps
  only_after_deps name tp =
      unlisted_deps "L003" name ": only_after references " tp.sequence.only_after

  unfoldable pub never_after_deps : String → ToolPolicy → List LintResult
  unfolding unlisted_deps
  never_after_deps name tp =
      unlisted_deps "L004" name ": never_after references " tp.sequence.never_after

  unfoldable pub lint_l003 : List LintResult
  unfolding only_after_deps
  lint_l003 = for_each only_after_deps p.tools

  unfoldable pub lint_l004 : List LintResult
  unfolding never_after_deps
  lint_l004 = for_each never_after_deps p.tools

  no_channel : Option EscalationConfig → Bool
  no_channel none = true
  no_channel (some config) = config.webhook_url == ""

  has_rule : Option EscalateRule → Bool
  has_rule none = false
  has_rule (some rule) = true

  unfoldable pub unmonitored : String → ToolPolicy → List LintResult
  unfolding has_rule no_channel
  unmonitored name tp = report_if (has_rule tp.escalate_when && no_channel p.escalation) (
      result "L008" warning (
        "tool "
        ∷ rt.quote name
        ∷ " has escalate_when but escalation.webhook_url is not configured; escalation events will only appear on stdout"
        ∷ []))

  unfoldable pub lint_l008 : List LintResult
  unfolding unmonitored
  lint_l008 = for_each unmonitored p.tools

  unfoldable pub bad_count : String → Option PriorNRule → List LintResult
  bad_count name none = []
  bad_count name (some rule) = report_if (leb_ℤ rule.count (pos 0)) (
      result "L010" error (
        "tool "
        ∷ rt.quote name
        ∷ ": requires_prior_n.count must be a positive integer, got "
        ∷ rt.show_int rule.count
        ∷ []))

  unfoldable pub counts : String → ToolPolicy → List LintResult
  unfolding bad_count
  counts name tp = bad_count name tp.sequence.requires_prior_n

  unfoldable pub lint_l010 : List LintResult
  unfolding counts
  lint_l010 = for_each counts p.tools

  unfoldable pub bad_escalate_operator : String → Option EscalateRule → List LintResult
  bad_escalate_operator name none = []
  bad_escalate_operator name (some rule) =
      report_if (not (contains valid_escalate_operators rule.operator)) (
        result "L012" error (
          "tool "
          ∷ rt.quote name
          ∷ ": escalate_when.operator "
          ∷ rt.quote rule.operator
          ∷ " is not valid; supported operators: >, <, >=, <=, ==, !=, contains, matches"
          ∷ []))

  unfoldable pub escalate_operators : String → ToolPolicy → List LintResult
  unfolding bad_escalate_operator
  escalate_operators name tp = bad_escalate_operator name tp.escalate_when

  unfoldable pub lint_l012 : List LintResult
  unfolding escalate_operators
  lint_l012 = for_each escalate_operators p.tools

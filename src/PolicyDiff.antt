-- ===== src/PolicyDiff.antt =====
-- cmd/policy/diff.go: the lines of a diff of two policies, after its heading.
pub mod Unseen
use mathlib.Core.List.{map}
use truebearing.Base.{
  ℕ, ℤ, pos, eqb_ℤ, String, Bool, true, false, not, ◌&&◌, ◌||◌, Option, none, some, List, [], ◌∷◌,
  ◌++◌, ◌==◌, if◌then◌else◌, contains, is_empty, keep, length, leb, lookup,
}
use truebearing.Go.{Float64, Runtime, text, Value}
use truebearing.Policy.{EscalateRule, Policy, PriorNRule, TaintPolicy, ToolPolicy}

-- `sort.Strings` and the verb `%.2f`.
pub record Printing : Type 0 where
  pub sort_strings : List String → List String
  pub show_money : Float64 → String

abbrev pub show_bool : Bool → String
show_bool true = "true"
show_bool false = "false"

abbrev pub same_bool : Bool → Bool → Bool
same_bool true b = b
same_bool false b = not b

abbrev pub keys : List (String × ToolPolicy) → List String
keys [] = []
keys ((name, tp) ∷ tools) = name ∷ keys tools

-- The names once each.
unfoldable pub distinct : List String → List String → List String
distinct seen [] = []
distinct seen (name ∷ names) =
    let rest = distinct (name ∷ seen) names in if contains seen name then rest else name ∷ rest

unfoldable pub all_in : List String → List String → Bool
all_in set [] = true
all_in set (s ∷ ss) = let rest = all_in set ss in if contains set s then rest else false

unfoldable pub same_string_set : List String → List String → Bool
unfolding all_in
same_string_set a b =
    if leb (length a) (length b) && leb (length b) (length a) then all_in a b else false

unfoldable pub same_prior_n : Option PriorNRule → Option PriorNRule → Bool
same_prior_n none none = true
same_prior_n (some a) none = false
same_prior_n none (some b) = false
same_prior_n (some a) (some b) = a.tool == b.tool && eqb_ℤ a.count b.count

unfoldable pub same_taint : TaintPolicy → TaintPolicy → Bool
same_taint a b =
    same_bool a.applies b.applies && (a.label == b.label && same_bool a.clears b.clears)

module _ (rt : Runtime) (out : Printing) where
  unfoldable pub same_escalate_rule : Option EscalateRule → Option EscalateRule → Bool
  same_escalate_rule none none = true
  same_escalate_rule (some a) none = false
  same_escalate_rule none (some b) = false
  same_escalate_rule (some a) (some b) =
      a.argument_path == b.argument_path
      && (a.operator == b.operator && rt.show_value a.value == rt.show_value b.value)

  format_prior_n : Option PriorNRule → String
  format_prior_n none = "(none)"
  format_prior_n (some r) =
      text ("{tool:" ∷ rt.quote r.tool ∷ ", count:" ∷ rt.show_int r.count ∷ "}" ∷ [])

  format_escalate_rule : Option EscalateRule → String
  format_escalate_rule none = "(none)"
  format_escalate_rule (some r) =
      text (r.argument_path ∷ " " ∷ r.operator ∷ " " ∷ rt.show_value r.value ∷ [])

  format_taint : TaintPolicy → String
  format_taint t = text (
      "{applies:"
      ∷ show_bool t.applies
      ∷ ", clears:"
      ∷ show_bool t.clears
      ∷ ", label:"
      ∷ rt.quote t.label
      ∷ "}"
      ∷ [])

  -- One line if the test says that something changed.
  change : Bool → List String → List String
  change same parts = if same then [] else text parts ∷ []

  listed : List String → String
  listed names = rt.join (out.sort_strings names) ", "

  -- The changes of a tool that both policies have.
  unfoldable pub tool_changes : ToolPolicy → ToolPolicy → List String
  unfolding change listed format_prior_n format_escalate_rule format_taint same_string_set
      same_prior_n same_taint same_escalate_rule
  tool_changes old new =
      change (old.enforcement_mode == new.enforcement_mode) (
        "    enforcement_mode: "
        ∷ rt.quote old.enforcement_mode
        ∷ " → "
        ∷ rt.quote new.enforcement_mode
        ∷ [])
      ++ change (same_string_set old.sequence.only_after new.sequence.only_after) (
          "    only_after: ["
          ∷ listed old.sequence.only_after
          ∷ "] → ["
          ∷ listed new.sequence.only_after
          ∷ "]"
          ∷ [])
      ++ change (same_string_set old.sequence.never_after new.sequence.never_after) (
          "    never_after: ["
          ∷ listed old.sequence.never_after
          ∷ "] → ["
          ∷ listed new.sequence.never_after
          ∷ "]"
          ∷ [])
      ++ change (same_prior_n old.sequence.requires_prior_n new.sequence.requires_prior_n) (
          "    requires_prior_n: "
          ∷ format_prior_n old.sequence.requires_prior_n
          ∷ " → "
          ∷ format_prior_n new.sequence.requires_prior_n
          ∷ [])
      ++ change (same_taint old.taint new.taint)
          ("    taint: " ∷ format_taint old.taint ∷ " → " ∷ format_taint new.taint ∷ [])
      ++ change (same_escalate_rule old.escalate_when new.escalate_when) (
          "    escalate_when: "
          ∷ format_escalate_rule old.escalate_when
          ∷ " → "
          ∷ format_escalate_rule new.escalate_when
          ∷ [])

  under_name : String → List String → List String
  under_name name changes = if is_empty changes then [] else text ("  " ∷ name ∷ ":" ∷ []) ∷ changes

  unfoldable pub diff_tool : String → Option ToolPolicy → Option ToolPolicy → List String
  unfolding tool_changes under_name
  diff_tool name none new = text ("  + " ∷ name ∷ " (added)" ∷ []) ∷ []
  diff_tool name (some old) none = text ("  - " ∷ name ∷ " (removed)" ∷ []) ∷ []
  diff_tool name (some old) (some new) = under_name name (tool_changes old new)

  unfoldable pub diff_tools :
      List (String × ToolPolicy) → List (String × ToolPolicy) → List String → List String
  unfolding diff_tool
  diff_tools old new [] = []
  diff_tools old new (name ∷ names) =
      diff_tool name (lookup old name) (lookup new name) ++ diff_tools old new names

  unfoldable pub union_keys : List (String × ToolPolicy) → List (String × ToolPolicy) → List String
  unfolding distinct
  union_keys a b = out.sort_strings (distinct [] (keys a ++ keys b))

  -- A heading over lines, if there are any.
  section_of : String → List String → List String
  section_of heading lines = if is_empty lines then [] else heading ∷ lines

  missing_from : List String → List String → List String
  missing_from set names = keep (λ name. not (contains set name)) names

  unfoldable pub may_use_lines : Policy → Policy → List String
  unfolding missing_from
  may_use_lines old new =
      map (λ name. text ("  + " ∷ name ∷ " (added)" ∷ []))
        (out.sort_strings (missing_from old.may_use new.may_use))
      ++ map (λ name. text ("  - " ∷ name ∷ " (removed)" ∷ []))
          (out.sort_strings (missing_from new.may_use old.may_use))

  arrow : String → String → String → List String
  arrow field old new = field ∷ old ∷ " → " ∷ new ∷ []

  unfoldable pub budget_lines : Policy → Policy → List String
  unfolding change arrow
  budget_lines old new =
      change (eqb_ℤ old.budget.max_tool_calls new.budget.max_tool_calls) (
        arrow "  max_tool_calls: " (rt.show_int old.budget.max_tool_calls)
          (rt.show_int new.budget.max_tool_calls))
      ++ change (rt.float_eq old.budget.max_cost_usd new.budget.max_cost_usd) (
          arrow "  max_cost_usd: " (out.show_money old.budget.max_cost_usd)
            (out.show_money new.budget.max_cost_usd))

  unfoldable pub session_lines : Policy → Policy → List String
  unfolding change arrow
  session_lines old new =
      change (eqb_ℤ old.session.max_history new.session.max_history) (
        arrow "  max_history: " (rt.show_int old.session.max_history)
          (rt.show_int new.session.max_history))
      ++ change (eqb_ℤ old.session.max_duration_seconds new.session.max_duration_seconds) (
          arrow "  max_duration_seconds: " (rt.show_int old.session.max_duration_seconds)
            (rt.show_int new.session.max_duration_seconds))

  -- The sections, the last one over the lines of the tools.
  unfoldable pub sections : List String → Policy → Policy → List String
  unfolding change arrow section_of may_use_lines budget_lines session_lines
  sections tool_lines old new =
      let lines =
        change (old.enforcement_mode == new.enforcement_mode)
          (arrow "\nMode: " old.enforcement_mode new.enforcement_mode)
        ++ section_of "\nMay-use:" (may_use_lines old new)
        ++ section_of "\nBudget:" (budget_lines old new)
        ++ section_of "\nSession:" (session_lines old new)
        ++ section_of "\nTools:" tool_lines in
      if is_empty lines then "\n(no changes detected)" ∷ [] else lines

  -- What is printed after the heading.
  unfoldable pub print_diff : Policy → Policy → List String
  unfolding sections diff_tools union_keys
  print_diff old new =
      sections (diff_tools old.tools new.tools (union_keys old.tools new.tools)) old new

-- ===== src/Engine/MayUse.antt =====
-- internal/engine/mayuse.go: the whitelist of the policy.
use truebearing.Base.{
  String, ◌≡◌, ◌↔◌, ◌⊎◌, [], ◌∷◌, Mem, arith, ◌==◌, eq_iff, if◌then◌else◌, contains, contains_iff,
}
use truebearing.Go.{Runtime, ok, text}
use truebearing.Engine.Types.{deny, allowed, refusal, Evaluator, ToolCall}
use truebearing.Engine.Outcome.{Answers}
use truebearing.Policy.{Policy}
use truebearing.Session.{Session}

abbrev pub virtual_escalation_tool : String
virtual_escalation_tool = "check_escalation_status"

-- The tool is the virtual one, or listed.
abbrev pub IsListed : ToolCall → Policy → Type 0
IsListed call pol = (call.tool_name ≡ virtual_escalation_tool) ⊎ Mem call.tool_name pol.may_use

module _ (rt : Runtime) where
  unfoldable pub evaluate : Evaluator
  evaluate call sess pol =
      if call.tool_name == virtual_escalation_tool
      then ok allowed
      else if contains pol.may_use call.tool_name
      then ok allowed
      else ok (
          refusal deny
            (text ("tool " ∷ rt.quote call.tool_name ∷ " is not in the policy may_use list" ∷ []))
            "may_use" "may_use_denied" []
            (text (
              "Tool "
              ∷ rt.quote call.tool_name
              ∷ " is not permitted by this policy. Retry with one of the allowed tools listed in the policy may_use declaration."
              ∷ [])))

  pub evaluate-Answers : Answers evaluate
  unfolding evaluate
  evaluate-Answers call sess pol = ground arith

  -- MayUse allows a call exactly if its tool is the virtual escalation tool or is on the may_use list.
  pub evaluate-IsListed :
      (call : ToolCall) (sess : Session) (pol : Policy)
      → (evaluate call sess pol ≡ ok allowed) ↔ IsListed call pol
  unfolding evaluate
  evaluate-IsListed call sess pol = (
    λ h. ground (
      arith,
      eq_iff call.tool_name virtual_escalation_tool,
      contains_iff pol.may_use call.tool_name,
    ),
    λ h. ground (
      arith,
      eq_iff call.tool_name virtual_escalation_tool,
      contains_iff pol.may_use call.tool_name,
    ),
  )

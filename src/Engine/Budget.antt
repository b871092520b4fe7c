-- ===== src/Engine/Budget.antt =====
-- internal/engine/budget.go: the call and cost ceilings of a session.
use truebearing.Base.{
  pos, ◌≡◌, ◌↔◌, true, false, [], ◌∷◌, arith, ◌&&◌, ltb_ℤ, leb_ℤ, eqb_ℤ, ◌<ℤ◌, if◌then◌else◌, Bool,
}
use truebearing.Go.{Runtime, Float64, zero_float, ok, text}
use truebearing.Engine.Types.{deny, allowed, refusal, Evaluator, ToolCall}
use truebearing.Engine.Outcome.{Answers}
use truebearing.Policy.{Policy}
use truebearing.Session.{Session}

module _ (rt : Runtime) where
  -- `b.MaxToolCalls > 0 && sess.ToolCallCount >= b.MaxToolCalls`
  abbrev calls_exceeded : Session → Policy → Bool
  calls_exceeded sess pol =
      ltb_ℤ (pos 0) pol.budget.max_tool_calls
      && leb_ℤ pol.budget.max_tool_calls sess.tool_call_count

  -- `b.MaxCostUSD > 0 && sess.EstimatedCostUSD >= b.MaxCostUSD`
  abbrev cost_exceeded : Session → Policy → Bool
  cost_exceeded sess pol =
      rt.float_lt zero_float pol.budget.max_cost_usd
      && rt.float_le pol.budget.max_cost_usd sess.estimated_cost_usd

  unfoldable pub evaluate : Evaluator
  evaluate call sess pol =
      let b = pol.budget in
      if eqb_ℤ b.max_tool_calls (pos 0) && rt.float_eq b.max_cost_usd zero_float
      then ok allowed
      else if calls_exceeded sess pol && cost_exceeded sess pol
      then ok (
          refusal deny
            (text (
              "session budget exceeded: tool call limit ("
              ∷ rt.show_int sess.tool_call_count
              ∷ "/"
              ∷ rt.show_int b.max_tool_calls
              ∷ " calls) and cost limit ($"
              ∷ rt.show_float sess.estimated_cost_usd
              ∷ "/$"
              ∷ rt.show_float b.max_cost_usd
              ∷ " USD) both reached"
              ∷ []))
            "budget.max_tool_calls" "budget_exceeded" []
            "Session budget limits have been reached. Start a new session or contact the operator to increase the configured limits.")
      else if calls_exceeded sess pol
      then ok (
          refusal deny
            (text (
              "session tool call limit reached: "
              ∷ rt.show_int sess.tool_call_count
              ∷ " of "
              ∷ rt.show_int b.max_tool_calls
              ∷ " calls used"
              ∷ []))
            "budget.max_tool_calls" "budget_exceeded" []
            "Session tool call budget has been reached. Start a new session or contact the operator to increase the configured limit.")
      else if cost_exceeded sess pol
      then ok (
          refusal deny
            (text (
              "session cost limit reached: $"
              ∷ rt.show_float sess.estimated_cost_usd
              ∷ " of $"
              ∷ rt.show_float b.max_cost_usd
              ∷ " USD used"
              ∷ []))
            "budget.max_cost_usd" "budget_exceeded" []
            "Session cost budget has been reached. Start a new session or contact the operator to increase the configured limit.")
      else ok allowed

  pub evaluate-Answers : Answers evaluate
  unfolding evaluate
  evaluate-Answers call sess pol = ground arith

  -- A configured ceiling is not reached yet.
  pub record HasRoom (sess : Session) (pol : Policy) : Type 0 where
    pub calls :
        pos 0 <ℤ pol.budget.max_tool_calls → sess.tool_call_count <ℤ pol.budget.max_tool_calls
    pub cost :
        rt.float_lt zero_float pol.budget.max_cost_usd ≡ true
        → rt.float_le pol.budget.max_cost_usd sess.estimated_cost_usd ≡ false

  -- IEEE 754: a number equal to zero is not above zero.
  abbrev pub ZeroIsNotAbove : Type 0
  ZeroIsNotAbove =
      (x : Float64) → rt.float_eq x zero_float ≡ true → rt.float_lt zero_float x ≡ false

  -- Budget allows a call exactly if each configured limit is still above what the session has used, where
  -- a float equal to zero is not above zero.
  pub evaluate-HasRoom :
      ZeroIsNotAbove
      → (call : ToolCall) (sess : Session) (pol : Policy)
      → (evaluate call sess pol ≡ ok allowed) ↔ HasRoom sess pol
  unfolding evaluate
  evaluate-HasRoom law call sess pol = (
    λ h. record {
      calls = ground (arith, law pol.budget.max_cost_usd);
      cost = ground (arith, law pol.budget.max_cost_usd);
    },
    λ h. ground (arith, law pol.budget.max_cost_usd, h.calls, h.cost),
  )

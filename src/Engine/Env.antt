-- ===== src/Engine/Env.antt =====
-- internal/engine/env.go: the environment that the policy requires.
use truebearing.Base.{String, ◌≡◌, ◌↔◌, ◌⊎◌, [], ◌∷◌, arith, ◌==◌, eq_iff, if◌then◌else◌}
use truebearing.Go.{Runtime, ok, text}
use truebearing.Engine.Types.{deny, allowed, refusal, Evaluator, ToolCall}
use truebearing.Engine.Outcome.{Answers}
use truebearing.Policy.{Policy}
use truebearing.Session.{Session}

abbrev env_display : String → String
env_display env = if env == "" then "(none — agent registered without --env)" else env

-- No environment is required, or the agent's claim is the required one.
abbrev pub IsInEnv : ToolCall → Policy → Type 0
IsInEnv call pol = (pol.session.require_env ≡ "") ⊎ (call.agent_env ≡ pol.session.require_env)

module _ (rt : Runtime) where
  unfoldable pub evaluate : Evaluator
  evaluate call sess pol =
      let required = pol.session.require_env in
      if required == ""
      then ok allowed
      else if call.agent_env == required
      then ok allowed
      else ok (
          refusal deny
            (text (
              "require_env: policy requires environment "
              ∷ rt.quote required
              ∷ " but agent env is "
              ∷ env_display call.agent_env
              ∷ []))
            "env.mismatch" "env_mismatch" []
            (text (
              "This policy requires an agent registered with --env "
              ∷ rt.quote required
              ∷ ". Re-register the agent with the correct environment flag and retry."
              ∷ [])))

  pub evaluate-Answers : Answers evaluate
  unfolding evaluate
  evaluate-Answers call sess pol = ground arith

  -- Env allows a call exactly if the policy requires no environment or the agent's is the required one.
  pub evaluate-IsInEnv :
      (call : ToolCall) (sess : Session) (pol : Policy)
      → (evaluate call sess pol ≡ ok allowed) ↔ IsInEnv call pol
  unfolding evaluate
  evaluate-IsInEnv call sess pol =
      let required = pol.session.require_env in
      (
        λ h. ground (arith, eq_iff required "", eq_iff call.agent_env required),
        λ h. ground (arith, eq_iff required "", eq_iff call.agent_env required),
      )

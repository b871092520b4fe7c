-- ===== src/Engine/Chain/Permitted.antt =====
-- What a call needs to be allowed, with no evaluator in sight, and the chain against it.
use truebearing.Base.{ℤ, ◌≡◌, ◌↔◌, true, some, arith, All}
use truebearing.Go.{Runtime, Result, ok, err}
use truebearing.Engine.Budget
use truebearing.Engine.Budget.{HasRoom, ZeroIsNotAbove}
use truebearing.Engine.Chain.{stages}
use truebearing.Engine.Content
use truebearing.Engine.Content.Exact.{IsClear}
use truebearing.Engine.Delegation
use truebearing.Engine.Delegation.{IsDelegated}
use truebearing.Engine.Env
use truebearing.Engine.Env.{IsInEnv}
use truebearing.Engine.Escalation
use truebearing.Engine.Escalation.Condition.{evaluate-IsUnheld, IsUnheld}
use truebearing.Engine.MayUse
use truebearing.Engine.MayUse.{IsListed}
use truebearing.Engine.Outcome.{Answers, IsAnswer}
use truebearing.Engine.Pipeline.{evaluate}
use truebearing.Engine.Pipeline.FirstFailure.{passes, AllPass, evaluate-allow_iff}
use truebearing.Engine.RateLimit
use truebearing.Engine.RateLimit.{IsUnderRate}
use truebearing.Engine.Sequence
use truebearing.Engine.Sequence.Exact.{IsInSequence}
use truebearing.Engine.Taint
use truebearing.Engine.Taint.{IsUntainted}
use truebearing.Engine.Types.{
  allow, Decision, allowed, Evaluator, QueryBackend, ToolCall, tool_policy,
}
use truebearing.Policy.{Policy, ToolPolicy}
use truebearing.Session.{Session}

-- An answer passes exactly if it is the bare Allow.
passes_iff : (r : Result Decision) → IsAnswer r → (passes r ≡ true) ↔ (r ≡ ok allowed)
passes_iff (err e) a = (λ h. cc, λ h. cc)
passes_iff (ok d) a = (λ h. ground arith, λ h. ground arith)

module _ (rt : Runtime) (now : ℤ) (store : QueryBackend) where
  pub record IsPermitted (call : ToolCall) (sess : Session) (pol : Policy) : Type 0 where
    pub environment : IsInEnv call pol
    pub listed : IsListed call pol
    pub delegated : IsDelegated rt store call
    pub room : HasRoom rt sess pol
    pub untainted : IsUntainted call sess pol
    pub in_sequence : IsInSequence rt store call sess pol
    pub content : (tp : ToolPolicy) → tool_policy pol call.tool_name ≡ some tp → IsClear rt call tp
    pub under_rate : IsUnderRate rt now store call sess pol
    pub unescalated : IsUnheld rt store call sess pol

  pub stages-Answers : All Answers (stages rt now store)
  unfolding stages
  stages-Answers = (
    Env.evaluate-Answers rt,
    (
      MayUse.evaluate-Answers rt,
      (
        Delegation.evaluate-Answers rt store,
        (
          Budget.evaluate-Answers rt,
          (
            Taint.evaluate-Answers rt,
            (
              Sequence.Exact.evaluate-Answers rt store,
              (
                Content.Exact.evaluate-Answers rt,
                (
                  RateLimit.evaluate-Answers rt now store,
                  (Escalation.evaluate-Answers rt store, tt),
                ),
              ),
            ),
          ),
        ),
      ),
    ),
  )

  module _ (law : ZeroIsNotAbove rt) (call : ToolCall) (sess : Session) (pol : Policy) where
    gate :
        (ev : Evaluator) {P : Type 0}
        → Answers ev
        → (ev call sess pol ≡ ok allowed) ↔ P
        → (passes (ev call sess pol) ≡ true) ↔ P
    gate ev answers exact =
        let bare = passes_iff (ev call sess pol) (answers call sess pol) in
        (λ h. exact.0 (bare.0 h), λ p. bare.1 (exact.1 p))

    IsPermitted-of_pass : AllPass call sess pol (stages rt now store) → IsPermitted call sess pol
    unfolding stages
    IsPermitted-of_pass h = record {
      environment =
          (gate (Env.evaluate rt) (Env.evaluate-Answers rt)
              (Env.evaluate-IsInEnv rt call sess pol)).0
            h.0;
      listed =
          (gate (MayUse.evaluate rt) (MayUse.evaluate-Answers rt)
              (MayUse.evaluate-IsListed rt call sess pol)).0
            h.1.0;
      delegated =
          (gate (Delegation.evaluate rt store) (Delegation.evaluate-Answers rt store)
              (Delegation.evaluate-IsDelegated rt store call sess pol)).0
            h.1.1.0;
      room =
          (gate (Budget.evaluate rt) (Budget.evaluate-Answers rt)
              (Budget.evaluate-HasRoom rt law call sess pol)).0
            h.1.1.1.0;
      untainted =
          (gate (Taint.evaluate rt) (Taint.evaluate-Answers rt)
              (Taint.evaluate-IsUntainted rt call sess pol)).0
            h.1.1.1.1.0;
      in_sequence =
          (gate (Sequence.evaluate rt store) (Sequence.Exact.evaluate-Answers rt store)
              (Sequence.Exact.evaluate-IsInSequence rt store call sess pol)).0
            h.1.1.1.1.1.0;
      content =
          (gate (Content.evaluate rt) (Content.Exact.evaluate-Answers rt)
              (Content.Exact.evaluate-IsClear rt call sess pol)).0
            h.1.1.1.1.1.1.0;
      under_rate =
          (gate (RateLimit.evaluate rt now store) (RateLimit.evaluate-Answers rt now store)
              (RateLimit.evaluate-IsUnderRate rt now store call sess pol)).0
            h.1.1.1.1.1.1.1.0;
      unescalated =
          (gate (Escalation.evaluate rt store) (Escalation.evaluate-Answers rt store)
              (evaluate-IsUnheld rt store call sess pol)).0
            h.1.1.1.1.1.1.1.1.0;
    }

    AllPass-of_IsPermitted : IsPermitted call sess pol → AllPass call sess pol (stages rt now store)
    unfolding stages
    AllPass-of_IsPermitted p = (
      (gate (Env.evaluate rt) (Env.evaluate-Answers rt) (Env.evaluate-IsInEnv rt call sess pol)).1
          p.environment,
      (
        (gate (MayUse.evaluate rt) (MayUse.evaluate-Answers rt)
              (MayUse.evaluate-IsListed rt call sess pol)).1
            p.listed,
        (
          (gate (Delegation.evaluate rt store) (Delegation.evaluate-Answers rt store)
                (Delegation.evaluate-IsDelegated rt store call sess pol)).1
              p.delegated,
          (
            (gate (Budget.evaluate rt) (Budget.evaluate-Answers rt)
                  (Budget.evaluate-HasRoom rt law call sess pol)).1
                p.room,
            (
              (gate (Taint.evaluate rt) (Taint.evaluate-Answers rt)
                    (Taint.evaluate-IsUntainted rt call sess pol)).1
                  p.untainted,
              (
                (gate (Sequence.evaluate rt store) (Sequence.Exact.evaluate-Answers rt store)
                      (Sequence.Exact.evaluate-IsInSequence rt store call sess pol)).1
                    p.in_sequence,
                (
                  (gate (Content.evaluate rt) (Content.Exact.evaluate-Answers rt)
                        (Content.Exact.evaluate-IsClear rt call sess pol)).1
                      p.content,
                  (
                    (gate (RateLimit.evaluate rt now store)
                          (RateLimit.evaluate-Answers rt now store)
                          (RateLimit.evaluate-IsUnderRate rt now store call sess pol)).1
                        p.under_rate,
                    (
                      (gate (Escalation.evaluate rt store) (Escalation.evaluate-Answers rt store)
                            (evaluate-IsUnheld rt store call sess pol)).1
                          p.unescalated,
                      tt,
                    ),
                  ),
                ),
              ),
            ),
          ),
        ),
      ),
    )

  -- The chain allows a call exactly if the call is permitted: all nine conditions hold of the call, the
  -- session, the policy and what the store answers.
  pub evaluate-IsPermitted :
      ZeroIsNotAbove rt
      → (call : ToolCall) (sess : Session) (pol : Policy)
      → ((evaluate (stages rt now store) call sess pol).0.action ≡ allow)
        ↔ IsPermitted call sess pol
  evaluate-IsPermitted law call sess pol =
      let all = evaluate-allow_iff call sess pol (stages rt now store) in
      (
        λ h. IsPermitted-of_pass law call sess pol (all.0 h),
        λ p. all.1 (AllPass-of_IsPermitted law call sess pol p),
      )

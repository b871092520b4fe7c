-- ===== src/Engine/Outcome.antt =====
-- What an evaluator may answer, as the interface `Evaluator` and the type `DenyFeedback` of
-- internal/engine describe it.
use truebearing.Base.{◌≡◌, ◌⊎◌, Bool, true, false, Option, some}
use truebearing.Go.{Result, ok, err}
use truebearing.Engine.Types.{
  Action, deny, escalate, DenyFeedback, Decision, allowed, Evaluator, ToolCall,
}
use truebearing.Policy.{Policy}
use truebearing.Session.{Session}

-- A denial or an escalation that carries its feedback.
abbrev pub is_refusal : Action → Option DenyFeedback → Bool
is_refusal deny (some f) = true
is_refusal escalate (some f) = true
is_refusal _ _ = false

-- The bare Allow, a refusal with feedback, or an error.
abbrev pub IsAnswer : Result Decision → Type 0
IsAnswer (err e) = Unit {0}
IsAnswer (ok d) = (d ≡ allowed) ⊎ (is_refusal d.action d.feedback ≡ true)

-- An evaluator that answers every call so.
abbrev pub Answers : Evaluator → Type 0
Answers ev = (call : ToolCall) (sess : Session) (pol : Policy) → IsAnswer (ev call sess pol)

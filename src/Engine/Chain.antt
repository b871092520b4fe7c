-- ===== src/Engine/Chain.antt =====
-- The chain of nine evaluators that internal/proxy/proxy.go and cmd/wasm/core.go build.
pub mod Permitted
pub mod Backends
use truebearing.Base.{ℤ, List, [], ◌∷◌}
use truebearing.Go.{Runtime}
use truebearing.Engine.Budget
use truebearing.Engine.Content
use truebearing.Engine.Delegation
use truebearing.Engine.Env
use truebearing.Engine.Escalation
use truebearing.Engine.MayUse
use truebearing.Engine.RateLimit
use truebearing.Engine.Sequence
use truebearing.Engine.Taint
use truebearing.Engine.Types.{Evaluator, QueryBackend}

unfoldable pub stages : Runtime → ℤ → QueryBackend → List Evaluator
stages rt now store =
    Env.evaluate rt
    ∷ MayUse.evaluate rt
    ∷ Delegation.evaluate rt store
    ∷ Budget.evaluate rt
    ∷ Taint.evaluate rt
    ∷ Sequence.evaluate rt store
    ∷ Content.evaluate rt
    ∷ RateLimit.evaluate rt now store
    ∷ Escalation.evaluate rt store
    ∷ []

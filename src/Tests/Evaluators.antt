-- ===== src/Tests/Evaluators.antt =====
-- The evaluators at concrete calls.
use truebearing.Base.{pos, ◌≡◌, ◌↔◌, false, refl, some, arith}
use truebearing.Engine.Budget
use truebearing.Engine.Budget.{evaluate-HasRoom, HasRoom, ZeroIsNotAbove}
use truebearing.Engine.Chain.{stages}
use truebearing.Engine.Chain.Permitted.{evaluate-IsPermitted, IsPermitted}
use truebearing.Engine.Content
use truebearing.Engine.Content.Exact.{evaluate-IsClear, IsClear}
use truebearing.Engine.Delegation
use truebearing.Engine.Delegation.{evaluate-IsDelegated, IsDelegated}
use truebearing.Engine.Escalation
use truebearing.Engine.Escalation.Condition.{evaluate-IsUnheld, IsUnheld}
use truebearing.Engine.Pipeline
use truebearing.Engine.RateLimit
use truebearing.Engine.RateLimit.Counted.{evaluate-IsWithinRate, IsWithinRate}
use truebearing.Engine.Sequence
use truebearing.Engine.Sequence.Exact.{evaluate-IsInSequence, IsInSequence}
use truebearing.Engine.StoreBackend.{store_backend}
use truebearing.Engine.Taint
use truebearing.Engine.Taint.{evaluate-IsUntainted, IsUntainted}
use truebearing.Engine.Types.{allow, allowed, QueryBackend, tool_policy, ToolCall}
use truebearing.Go.{ok}
use truebearing.Policy.{ToolPolicy}
use truebearing.Tests.World.{
  call_of_tool, fresh_session, no_read_faults, session_row, store_with, test_policy, test_runtime,
}

-- The order of the test runtime's floats.
pub zero_is_not_above : ZeroIsNotAbove test_runtime
zero_is_not_above x h = ground arith

abbrev read : ToolCall
read = call_of_tool "read"

abbrev write : ToolCall
write = call_of_tool "write"

abbrev backend : QueryBackend
backend = store_backend test_runtime no_read_faults (store_with (session_row false))

evaluate-IsPermitted_example :
    ((Pipeline.evaluate
        (stages test_runtime (pos 1001) backend)
        read
        fresh_session
        test_policy).0.action
      ≡ allow)
    ↔ IsPermitted test_runtime (pos 1001) backend read fresh_session test_policy
evaluate-IsPermitted_example =
    evaluate-IsPermitted test_runtime (pos 1001) backend zero_is_not_above read fresh_session
      test_policy

evaluate-HasRoom_example :
    (Budget.evaluate test_runtime read fresh_session test_policy ≡ ok allowed)
    ↔ HasRoom test_runtime fresh_session test_policy
evaluate-HasRoom_example =
    evaluate-HasRoom test_runtime zero_is_not_above read fresh_session test_policy

evaluate-IsDelegated_example :
    (Delegation.evaluate test_runtime backend read fresh_session test_policy ≡ ok allowed)
    ↔ IsDelegated test_runtime backend read
evaluate-IsDelegated_example =
    evaluate-IsDelegated test_runtime backend read fresh_session test_policy

evaluate-IsUntainted_example :
    (Taint.evaluate test_runtime write fresh_session test_policy ≡ ok allowed)
    ↔ IsUntainted write fresh_session test_policy
evaluate-IsUntainted_example = evaluate-IsUntainted test_runtime write fresh_session test_policy

evaluate-IsWithinRate_example :
    (RateLimit.evaluate test_runtime (pos 1001) backend read fresh_session test_policy ≡ ok allowed)
    ↔ IsWithinRate (pos 1001) (store_with (session_row false)) read fresh_session test_policy
evaluate-IsWithinRate_example =
    evaluate-IsWithinRate test_runtime (pos 1001) no_read_faults (store_with (session_row false))
      read fresh_session test_policy refl

evaluate-IsInSequence_example :
    (Sequence.evaluate test_runtime backend write fresh_session test_policy ≡ ok allowed)
    ↔ IsInSequence test_runtime backend write fresh_session test_policy
evaluate-IsInSequence_example =
    evaluate-IsInSequence test_runtime backend write fresh_session test_policy

evaluate-IsClear_example :
    (Content.evaluate test_runtime write fresh_session test_policy ≡ ok allowed) ↔ (
      (tp : ToolPolicy) → tool_policy test_policy "write" ≡ some tp → IsClear test_runtime write tp)
evaluate-IsClear_example = evaluate-IsClear test_runtime write fresh_session test_policy

evaluate-IsUnheld_example :
    (Escalation.evaluate test_runtime backend write fresh_session test_policy ≡ ok allowed)
    ↔ IsUnheld test_runtime backend write fresh_session test_policy
evaluate-IsUnheld_example = evaluate-IsUnheld test_runtime backend write fresh_session test_policy

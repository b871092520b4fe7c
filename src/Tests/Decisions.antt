-- ===== src/Tests/Decisions.antt =====
-- Decisions of the pipeline at concrete calls.
use truebearing.Base.{
  ℕ, ℤ, pos, ◌≡◌, ◌≢◌, ◌↔◌, ◌⊎◌, inl, inr, refl, String, List, [], ◌∷◌, ◌++◌, Bool, true, false,
  none, some,
}
use truebearing.Engine.Budget
use truebearing.Engine.Chain.{stages}
use truebearing.Engine.Chain.Permitted.{stages-Answers}
use truebearing.Engine.Env
use truebearing.Engine.MayUse
use truebearing.Engine.Pipeline.{evaluate, is_shadow, own_mode}
use truebearing.Engine.Pipeline.FirstFailure.{
  evaluate-first_failure, evaluate-session, passes, taint_after, verdict,
}
use truebearing.Engine.Pipeline.Modes.{
  evaluate-IsEnforced, evaluate-IsObserved, is_shadow_iff, IsEnforced, IsObserved,
}
use truebearing.Engine.StoreBackend.{store_backend}
use truebearing.Engine.Types.{allow, Evaluator, QueryBackend, tool_policy, ToolCall}
use truebearing.Policy.{enforcement_shadow}
use truebearing.Tests.World.{
  call_of_tool, fresh_session, no_read_faults, session_row, store_with, test_policy, test_runtime,
}

abbrev backend : QueryBackend
backend = store_backend test_runtime no_read_faults (store_with (session_row false))

abbrev chain : List Evaluator
chain = stages test_runtime (pos 1001) backend

-- A tool that the policy does not list.
abbrev drop : ToolCall
drop = call_of_tool "drop"

drop_is_in_env : passes (Env.evaluate test_runtime drop fresh_session test_policy) ≡ true
unfolding Env.evaluate
drop_is_in_env = refl

drop_is_not_listed : passes (MayUse.evaluate test_runtime drop fresh_session test_policy) ≡ false
unfolding MayUse.evaluate truebearing.Base.contains
drop_is_not_listed = refl

evaluate-first_failure_example :
    evaluate
      (Env.evaluate test_runtime ∷ []
        ++ MayUse.evaluate test_runtime ∷ Budget.evaluate test_runtime ∷ [])
      drop
      fresh_session
      test_policy
    ≡ (
      verdict (MayUse.evaluate test_runtime drop fresh_session test_policy) drop test_policy,
      fresh_session,
    )
evaluate-first_failure_example =
    evaluate-first_failure drop fresh_session test_policy (Env.evaluate test_runtime ∷ [])
      (MayUse.evaluate test_runtime) (Budget.evaluate test_runtime ∷ []) (drop_is_in_env, tt)
      drop_is_not_listed

evaluate-session_example :
    (((evaluate chain (call_of_tool "read") fresh_session test_policy).0.action ≡ allow)
      × ((evaluate chain (call_of_tool "read") fresh_session test_policy).1
          ≡ record fresh_session { tainted = taint_after (tool_policy test_policy "read") false }))
    ⊎ (((evaluate chain (call_of_tool "read") fresh_session test_policy).0.action ≢ allow)
        × ((evaluate chain (call_of_tool "read") fresh_session test_policy).1 ≡ fresh_session))
evaluate-session_example = evaluate-session (call_of_tool "read") fresh_session test_policy chain

write_is_shadow : is_shadow test_policy (call_of_tool "write") ≡ true
unfolding is_shadow truebearing.Base.lookup
write_is_shadow = refl

read_is_not_shadow : is_shadow test_policy (call_of_tool "read") ≡ false
unfolding is_shadow truebearing.Base.lookup
read_is_not_shadow = refl

evaluate-IsObserved_example :
    IsObserved (evaluate chain (call_of_tool "write") fresh_session test_policy).0
evaluate-IsObserved_example =
    evaluate-IsObserved (call_of_tool "write") fresh_session test_policy chain write_is_shadow

evaluate-IsEnforced_example :
    IsEnforced (evaluate chain (call_of_tool "read") fresh_session test_policy).0
evaluate-IsEnforced_example =
    evaluate-IsEnforced (call_of_tool "read") fresh_session test_policy chain read_is_not_shadow
      (stages-Answers test_runtime (pos 1001) backend)

is_shadow_iff_example : (is_shadow test_policy (call_of_tool "write") ≡ true) ↔ (
    (own_mode (tool_policy test_policy "write") ≡ enforcement_shadow)
    ⊎ ((own_mode (tool_policy test_policy "write") ≡ "")
        × (test_policy.enforcement_mode ≡ enforcement_shadow)))
is_shadow_iff_example = is_shadow_iff test_policy (call_of_tool "write")

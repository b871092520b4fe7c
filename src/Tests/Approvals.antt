-- ===== src/Tests/Approvals.antt =====
-- A call that is escalated, approved and made again.
use truebearing.Base.{pos, ◌≡◌, refl, true, false, some, [], ◌∷◌, any, lookup}
use truebearing.Engine.Chain.Backends.{no_faults}
use truebearing.Engine.Escalation.{apply_escalation_operator, evaluate}
use truebearing.Engine.StoreBackend.{store_backend}
use truebearing.Engine.Types.{allowed, Decision, escalate, QueryBackend}
use truebearing.Go.{err, ok, other, Result, Runtime, zero_float}
use truebearing.Policy.{EscalateRule, Policy}
use truebearing.Proxy.Admin.{field, handle_admin_approve_escalation, resolved_as}
use truebearing.Proxy.Admin.Answers.{at}
use truebearing.Proxy.Admin.Retried.{escalated_call_passes}
use truebearing.Proxy.State.{Proxy}
use truebearing.Store.Escalations.{find_row, has_approved_escalation}
use truebearing.Tests.World.{
  call_of_tool, fresh_session, pending, session_row, test_policy, test_proxy, test_runtime,
  write_policy,
}

-- Every argument is there, and every text contains every other.
abbrev runtime : Runtime
runtime = record test_runtime {
  has_substring = λ s t. true;
  gjson_get = λ json path. record { exists = true; text = "large"; number = zero_float };
}

abbrev rule : EscalateRule
rule = record { argument_path = "amount"; operator = "contains"; value = other "large" }

abbrev guarded : Policy
guarded = record test_policy {
  tools = ("write", record write_policy { escalate_when = some rule }) ∷ [];
}

abbrev proxy : Proxy
proxy = test_proxy (session_row false)

abbrev backend : QueryBackend
backend = store_backend runtime no_faults proxy.store

abbrev decided : Result Decision → Decision
decided (ok d) = d
decided (err e) = allowed

abbrev decision : Decision
decision = decided (evaluate runtime backend (call_of_tool "write") fresh_session guarded)

is_decided : evaluate runtime backend (call_of_tool "write") fresh_session guarded ≡ ok decision
unfolding evaluate lookup apply_escalation_operator store_backend has_approved_escalation any
is_decided = refl

is_escalated : decision.action ≡ escalate
unfolding evaluate lookup apply_escalation_operator store_backend has_approved_escalation any
is_escalated = refl

is_found : find_row proxy.store.escalations "e1" ≡ some pending
unfolding find_row
is_found = refl

escalated_call_passes_example :
    let approved =
      handle_admin_approve_escalation runtime
        (at (pos 9) (λ rows. rows))
        "e1"
        (field "fine")
        proxy in
    (approved.0 ≡ resolved_as "e1" "approved")
    × (evaluate runtime
          (store_backend runtime no_faults approved.1.store)
          (call_of_tool "write")
          fresh_session
          guarded
        ≡ ok allowed)
escalated_call_passes_example =
    escalated_call_passes runtime (call_of_tool "write") fresh_session guarded proxy backend
      decision pending (pos 9) (λ rows. rows) "e1" "fine" is_decided is_escalated is_found refl refl
      refl refl

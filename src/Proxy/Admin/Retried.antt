-- ===== src/Proxy/Admin/Retried.antt =====
-- A call that was escalated, and what an approval does for it.
use mathlib.Core.Path.{subst}
use truebearing.Base.{
  ℤ, String, ◌≡◌, inr, refl, sym, ap, ◌∙◌, true, false, Option, none, some, List, ◌==◌, arith,
}
use truebearing.Engine.Escalation.{
  apply_escalation_operator, approval, check_escalation, check_rule, evaluate,
  evaluate-IsUnescalated, gjson_path, rule_of,
}
use truebearing.Engine.StoreBackend.{store_backend}
use truebearing.Engine.Chain.Backends.{no_faults}
use truebearing.Engine.Types.{
  allow, allowed, Decision, escalate, QueryBackend, ToolCall, tool_policy,
}
use truebearing.Go.{err, ok-injective, ok-not-err, ok, Result, Runtime}
use truebearing.Policy.{EscalateRule, Policy}
use truebearing.Proxy.Admin.{
  AdminResponse, approve, field, handle_admin_approve_escalation, resolved_as, respond, wrap,
}
use truebearing.Proxy.Admin.Answers.{at}
use truebearing.Proxy.State.{Proxy}
use truebearing.Session.{Session}
use truebearing.Store.Escalations.{
  approve_escalation, find_row, get_escalation_status, has_approved_escalation,
}
use truebearing.Store.Escalations.Approval.{approve_escalation-grants}
use truebearing.Store.Rows.{Escalation, from_null, Store}

allow_not_escalate : allow ≡ escalate → ⊥
allow_not_escalate q = cc

module _ (rt : Runtime) (call : ToolCall) (sess : Session) where
  -- The rule has a path, the argument is there, and the condition holds of it.
  abbrev pub IsTriggered : EscalateRule → Type 0
  IsTriggered rule =
      ((gjson_path rt rule == "") ≡ false)
      × ((rt.gjson_get call.arguments (gjson_path rt rule)).exists ≡ true)
      × (apply_escalation_operator rt (rt.gjson_get call.arguments (gjson_path rt rule))
            rule.operator rule.value
          ≡ ok true)

  -- An escalation comes from a rule that is triggered.
  check_rule-IsTriggered :
      (store : QueryBackend) (rule : EscalateRule) (d : Decision)
      → check_rule rt store rule call sess ≡ ok d
      → d.action ≡ escalate
      → IsTriggered rule
  unfolding check_rule
  check_rule-IsTriggered store rule d h a =
      (ground (arith, h), ground (arith, h), ground (arith, h, not_allowed))
    where
      not_allowed : ok allowed ≡ ok d → ⊥
      not_allowed q = allow_not_escalate (ap (λ (x : Decision). x.action) (ok-injective q) ∙ a)

  judged_rule :
      (store : QueryBackend) (d : Decision) (o : Option EscalateRule) (rule : EscalateRule)
      → o ≡ some rule
      → check_escalation rt store o call sess ≡ ok d
      → check_rule rt store rule call sess ≡ ok d
  unfolding check_escalation
  judged_rule store d o rule e h = subst (λ r. check_escalation rt store r call sess ≡ ok d) e h

  -- A triggered rule lets the call pass once it is approved.
  passes-approved :
      (store : QueryBackend) (pol : Policy) (d : Decision)
      → (before : QueryBackend) → evaluate rt before call sess pol ≡ ok d
      → d.action ≡ escalate
      → approval rt store call sess ≡ ok true
      → evaluate rt store call sess pol ≡ ok allowed
  unfolding evaluate
  passes-approved store pol d before h a ok_true =
      (evaluate-IsUnescalated rt store call sess pol).1 (λ rule e.
        let (path, present, triggered) = check_rule-IsTriggered before rule d (judged rule e) a in
        record { path = path; present = present; condition = inr (triggered, ok_true) })
    where
      judged :
          (rule : EscalateRule)
          → rule_of (tool_policy pol call.tool_name) ≡ some rule
          → check_rule rt before rule call sess ≡ ok d
      judged rule e = judged_rule before d (rule_of (tool_policy pol call.tool_name)) rule e h

  answered-approved :
      (now : ℤ) (id note : String) (p : Proxy) (r : Result (Unit {0}) × Store)
      → r.0 ≡ ok tt
      → respond rt "approve" "approved" id p (wrap rt "approving" id r)
        ≡ (resolved_as id "approved", record p { store = r.1 })
  unfolding respond wrap
  answered-approved now id note p (ok u, s) h = refl
  answered-approved now id note p (err e, s) h = absurd (ok-not-err h)

  -- If a call is escalated, and the pending escalation of an id is for its session, tool and arguments,
  -- then the operator's approval of that id succeeds, and the same call passes the escalation evaluator
  -- afterwards, if no statement fails.
  pub escalated_call_passes :
      (pol : Policy) (p : Proxy) (before : QueryBackend) (d : Decision) (e : Escalation) (now : ℤ)
      (newest_first : List Escalation → List Escalation) (id note : String)
      → evaluate rt before call sess pol ≡ ok d
      → d.action ≡ escalate
      → find_row p.store.escalations id ≡ some e
      → e.status ≡ "pending"
      → e.session_id ≡ sess.id
      → e.tool_name ≡ call.tool_name
      → from_null e.arguments_json ≡ call.arguments
      → let approved = handle_admin_approve_escalation rt (at now newest_first) id (field note) p in
        (approved.0 ≡ resolved_as id "approved")
        × (evaluate rt (store_backend rt no_faults approved.1.store) call sess pol ≡ ok allowed)
  unfolding handle_admin_approve_escalation approve store_backend
  escalated_call_passes pol p before d e now newest_first id note h a f s i t j = (
    ap (λ (x : AdminResponse × Proxy). x.0) answer,
    subst
        (λ (x : AdminResponse × Proxy).
          evaluate rt (store_backend rt no_faults x.1.store) call sess pol ≡ ok allowed)
        (sym answer)
        (passes-approved (store_backend rt no_faults resolved.1) pol d before h a
          (same ∙ grants.2)),
  )
    where
      resolved : Result (Unit {0}) × Store
      resolved = approve_escalation rt none none now id note p.store

      grants :
          (resolved.0 ≡ ok tt)
          × (get_escalation_status rt none id resolved.1 ≡ ok "approved")
          × (has_approved_escalation rt none e.session_id e.tool_name
                (rt.sha256_hex (from_null e.arguments_json))
                resolved.1
              ≡ ok true)
      grants = approve_escalation-grants rt none now id note p.store f s

      answer :
          handle_admin_approve_escalation rt (at now newest_first) id (field note) p
          ≡ (resolved_as id "approved", record p { store = resolved.1 })
      answer = answered-approved now id note p resolved grants.0

      same :
          has_approved_escalation rt none sess.id call.tool_name
            (rt.sha256_hex call.arguments)
            resolved.1
          ≡ has_approved_escalation rt none e.session_id e.tool_name
              (rt.sha256_hex (from_null e.arguments_json))
              resolved.1
      same = λ k.
          has_approved_escalation rt none (sym i k) (sym t k) (rt.sha256_hex (sym j k)) resolved.1

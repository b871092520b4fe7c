-- ===== src/Proxy/Handler/Enforced.antt =====
-- What the enforcement of a decision answers and changes.
use truebearing.Base.{ℕ, ◌≡◌, ◌≢◌, ◌⊎◌, refl, Bool, false, ◌&&◌, arith}
use truebearing.Engine.Types.{Action, allow, deny, escalate, shadow_deny, Decision}
use truebearing.Go.{Result, ok, err}
use truebearing.Policy.{Policy}
use truebearing.Proxy.Handler.{Incoming, enforce, forward, escalated, new_escalation}
use truebearing.Proxy.Response.{forwarded}
use truebearing.Proxy.State.{Libraries, Proxy, Conditions}
use truebearing.Store.Escalations.{create_escalation}
use truebearing.Store.Rows.{Store, Escalation}
use truebearing.Store.Sessions.Kept.{IsSameLog, increment_session_counters-IsSameLog}
use truebearing.Store.Escalations.Kept.{create_escalation-IsSameLog}

-- The actions that let a call through.
abbrev pub IsPassing : Action → Type 0
IsPassing a = (a ≡ allow) ⊎ (a ≡ shadow_deny)

module _ (libs : Libraries) (now : Conditions) where
  escalated-not_forwarded :
      (made : Result (Unit {0}) × Store) (esc : Escalation) (inc : Incoming) (d : Decision)
      (pol : Policy) (p : Proxy)
      → (escalated libs now made esc inc d pol p).response ≢ forwarded
  unfolding escalated
  escalated-not_forwarded (ok t, s) esc inc d pol p h = ground arith
  escalated-not_forwarded (err e, s) esc inc d pol p h = ground arith

  pub enforce-forwarded :
      (a : Action) (inc : Incoming) (seq : ℕ) (d : Decision) (pol : Policy) (failed : Bool)
      (p : Proxy)
      → (enforce libs now a inc seq d pol failed p).response ≡ forwarded
      → IsPassing a × ((failed && p.audit_strict) ≡ false)
  unfolding enforce forward
  enforce-forwarded allow inc seq d pol failed p h = ground arith
  enforce-forwarded shadow_deny inc seq d pol failed p h = ground arith
  enforce-forwarded deny inc seq d pol failed p h = ground arith
  enforce-forwarded escalate inc seq d pol failed p h = ground (
    arith,
    escalated-not_forwarded
        (create_escalation libs.rt now.escalation_fault now.duplicate now.now
          (new_escalation libs now inc seq) p.store)
        (new_escalation libs now inc seq) inc d pol p h,
  )

  forward-IsSameLog :
      (inc : Incoming) (failed : Bool) (p : Proxy)
      → IsSameLog p.store (forward libs now inc failed p).state.store
  unfolding forward
  forward-IsSameLog inc failed p = ground (
    arith,
    increment_session_counters-IsSameLog libs.rt now.counter_fault now.now inc.session_id
        libs.cost_per_tool_call p.store,
  )

  escalated-IsSameLog :
      (made : Result (Unit {0}) × Store) (esc : Escalation) (inc : Incoming) (d : Decision)
      (pol : Policy) (p : Proxy)
      → IsSameLog p.store made.1
      → IsSameLog p.store (escalated libs now made esc inc d pol p).state.store
  unfolding escalated
  escalated-IsSameLog (ok t, s) esc inc d pol p k = k
  escalated-IsSameLog (err e, s) esc inc d pol p k = k

  -- Enforcement writes no event and no audit record.
  pub enforce-IsSameLog :
      (a : Action) (inc : Incoming) (seq : ℕ) (d : Decision) (pol : Policy) (failed : Bool)
      (p : Proxy)
      → IsSameLog p.store (enforce libs now a inc seq d pol failed p).state.store
  unfolding enforce
  enforce-IsSameLog allow inc seq d pol failed p = forward-IsSameLog inc failed p
  enforce-IsSameLog shadow_deny inc seq d pol failed p = forward-IsSameLog inc failed p
  enforce-IsSameLog deny inc seq d pol failed p = (refl, refl)
  enforce-IsSameLog escalate inc seq d pol failed p =
      let esc = new_escalation libs now inc seq in
      escalated-IsSameLog
        (create_escalation libs.rt now.escalation_fault now.duplicate now.now esc p.store) esc inc d
        pol p
        (create_escalation-IsSameLog libs.rt now.escalation_fault now.duplicate now.now esc p.store)

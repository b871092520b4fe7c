-- ===== src/Proxy/Govern/Recording.antt =====
-- What governing a call writes to the event log.
use truebearing.Base.{
  ℕ, String, ◌+◌, ◌≡◌, ◌⊎◌, inl, inr, refl, Bool, false, ◌&&◌, [], ◌∷◌, ◌++◌, arith, ap, ◌∙◌,
  Bool-cases,
}
use truebearing.Base.Sort.{max_key}
use truebearing.Engine.Types.{Action, action_string, allow, Decision, deny, escalate, shadow_deny}
use truebearing.Go.{GoError, Result, ok, err, Result-cases}
use truebearing.Policy.{Policy}
use truebearing.Proxy.Govern.{
  decide, event_of, persist_taint, persisted, record_event, recorded, run_pipeline, same,
}
use truebearing.Proxy.Handler.{Incoming, write_audit_record}
use truebearing.Proxy.Handler.Audited.{write_audit_record-events}
use truebearing.Proxy.Handler.Enforced.{enforce-forwarded, enforce-IsSameLog, IsPassing}
use truebearing.Proxy.Response.{bad_request, forwarded}
use truebearing.Proxy.State.{Libraries, Proxy, Conditions}
use truebearing.Session.{Session}
use truebearing.Store.Events.{append_event}
use truebearing.Store.Events.Log.{append_event-err, append_event-ok, events_of}
use truebearing.Store.Rows.{Store, nullable_string, SessionEvent}
use truebearing.Store.Sessions.{update_session_taint}
use truebearing.Store.Sessions.Kept.{IsSameLog, update_session_taint-IsSameLog}

-- How a decision is written in the event log and in the audit log.
abbrev pub decision_word : Action → String
decision_word allow = "allow"
decision_word deny = "deny"
decision_word escalate = "escalate"
decision_word shadow_deny = "shadow_deny"

pub decision_word_lem : (a : Action) → action_string a ≡ decision_word a
decision_word_lem allow = refl
decision_word_lem deny = refl
decision_word_lem escalate = refl
decision_word_lem shadow_deny = refl

module _ (libs : Libraries) (now : Conditions) (inc : Incoming) (d : Decision) (pol : Policy) where
  persisted-IsSameLog :
      (r : Result (Unit {0}) × Store) (seq : ℕ) (failed : Bool) (p : Proxy)
      → IsSameLog p.store r.1
      → IsSameLog p.store (persisted libs now r inc seq d pol failed p).state.store
  unfolding persisted
  persisted-IsSameLog (err e, s) seq failed p k = k
  persisted-IsSameLog (ok t, s) seq failed p k =
      let later =
        enforce-IsSameLog libs now d.action inc seq d pol failed (record p { store = s }) in
      (later.0 ∙ k.0, later.1 ∙ k.1)

  pub persist_taint-IsSameLog :
      (before : Bool) (sess : Session) (seq : ℕ) (after : Bool × Proxy)
      → IsSameLog after.1.store (persist_taint libs now before sess inc seq d pol after).state.store
  unfolding persist_taint
  persist_taint-IsSameLog before sess seq (failed, p) =
      let update =
        update_session_taint libs.rt now.taint_fault now.now inc.session_id sess.tainted p.store in
      let kept = persisted-IsSameLog update seq failed p (
        update_session_taint-IsSameLog libs.rt now.taint_fault now.now inc.session_id sess.tainted
          p.store) in
      elim (Bool-cases (same before sess.tainted)) [
        | inl h ↦ ground (arith, enforce-IsSameLog libs now d.action inc seq d pol failed p)
        | inr h ↦ ground (arith, kept)
      ]

  persisted-forwarded :
      (r : Result (Unit {0}) × Store) (seq : ℕ) (failed : Bool) (p : Proxy)
      → (persisted libs now r inc seq d pol failed p).response ≡ forwarded
      → IsPassing d.action × ((failed && p.audit_strict) ≡ false)
  unfolding persisted
  persisted-forwarded (err e, s) seq failed p h = ground arith
  persisted-forwarded (ok t, s) seq failed p h =
      enforce-forwarded libs now d.action inc seq d pol failed (record p { store = s }) h

  pub persist_taint-forwarded :
      (before : Bool) (sess : Session) (seq : ℕ) (after : Bool × Proxy)
      → (persist_taint libs now before sess inc seq d pol after).response ≡ forwarded
      → IsPassing d.action × ((after.0 && after.1.audit_strict) ≡ false)
  unfolding persist_taint
  persist_taint-forwarded before sess seq (failed, p) h =
      let update =
        update_session_taint libs.rt now.taint_fault now.now inc.session_id sess.tainted p.store in
      ground (
        arith,
        persisted-forwarded update seq failed p,
        enforce-forwarded libs now d.action inc seq d pol failed p,
      )

module _ (libs : Libraries) (now : Conditions) (inc : Incoming) (pol : Policy) where
  recorded-events :
      (r : Result ℕ × Store) (before : Bool) (result : Decision × Session) (p : Proxy)
      → (recorded libs now r inc before result pol p).state.store.session_events
        ≡ r.1.session_events
  unfolding recorded
  recorded-events (err e, s) before (d, sess) p = refl
  recorded-events (ok seq, s) before (d, sess) p =
      (persist_taint-IsSameLog libs now inc d pol before sess seq
        (write_audit_record libs now inc seq d pol.fingerprint (record p { store = s }))).0
      ∙ write_audit_record-events libs now inc seq d pol.fingerprint (record p { store = s })

  recorded-err :
      (r : Result ℕ × Store) (before : Bool) (result : Decision × Session) (p : Proxy)
      → {e : GoError} → r.0 ≡ err e
      → (recorded libs now r inc before result pol p).response
        ≡ bad_request "session recording failed"
  unfolding recorded
  recorded-err (err e, s) before (d, sess) p h = refl
  recorded-err (ok seq, s) before (d, sess) p h = ground arith

  -- The number of the next event of the session.
  abbrev pub next_number : Proxy → ℕ
  next_number p = max_key (λ ev. ev.seq) (events_of inc.session_id p.store) + 1

  -- The row that a decision on the call is recorded as.
  abbrev pub decision_row : Decision → Proxy → SessionEvent
  decision_row d p = record {
    seq = next_number p;
    session_id = inc.session_id;
    tool_name = inc.params.name;
    arguments_json = nullable_string inc.params.arguments;
    decision = decision_word d.action;
    policy_rule = nullable_string d.rule_id;
    recorded_at = now.now;
  }

  -- Governing a call adds exactly one event for it, whatever the decision is, with the session's next
  -- number, the session, the tool and the arguments of the call, the decision's action and rule, and the
  -- time; or none, if the event cannot be recorded, and then the answer is an error.
  pub run_pipeline-one_event :
      (sess : Session) (p : Proxy)
      → ((run_pipeline libs now inc sess pol p).state.store.session_events
          ≡ p.store.session_events ++ decision_row (decide libs now inc sess pol p).0 p ∷ [])
        ⊎ (((run_pipeline libs now inc sess pol p).state.store.session_events
              ≡ p.store.session_events)
            × ((run_pipeline libs now inc sess pol p).response
                ≡ bad_request "session recording failed"))
  unfolding run_pipeline record_event event_of
  run_pipeline-one_event sess p =
      let result = decide libs now inc sess pol p in
      let event = event_of libs now inc result.0 in
      let done = append_event libs.rt now.append_fault now.refused now.now event p.store in
      let kept = recorded-events done sess.tainted result p in
      elim (Result-cases done.0) [
        | inl (seq, h) ↦
            let stored_row =
              append_event-ok libs.rt now.append_fault now.refused now.now event p.store h in
            inl (
              kept
              ∙ ap (λ (s : Store). s.session_events) stored_row.1
              ∙ ap
                  (λ w.
                    p.store.session_events
                    ++ record (decision_row result.0 p) { decision = w } ∷ [])
                  (decision_word_lem result.0.action))
        | inr (e, h) ↦
            let same_store =
              append_event-err libs.rt now.append_fault now.refused now.now event p.store h in
            inr (
              kept ∙ ap (λ (s : Store). s.session_events) same_store,
              recorded-err done sess.tainted result p h,
            )
      ]

  recorded-forwarded :
      (r : Result ℕ × Store) (before : Bool) (result : Decision × Session) (p : Proxy)
      → (recorded libs now r inc before result pol p).response ≡ forwarded
      → IsPassing result.0.action
  unfolding recorded
  recorded-forwarded (err e, s) before (d, sess) p h = ground arith
  recorded-forwarded (ok seq, s) before (d, sess) p h =
      (persist_taint-forwarded libs now inc d pol before sess seq
        (write_audit_record libs now inc seq d pol.fingerprint (record p { store = s })) h).0

  -- A governed call is forwarded only on the decision Allow or ShadowDeny.
  pub run_pipeline-forwarded :
      (sess : Session) (p : Proxy)
      → (run_pipeline libs now inc sess pol p).response ≡ forwarded
      → IsPassing (decide libs now inc sess pol p).0.action
  unfolding run_pipeline record_event
  run_pipeline-forwarded sess p h =
      let result = decide libs now inc sess pol p in
      let done =
        append_event libs.rt now.append_fault now.refused now.now (event_of libs now inc result.0)
          p.store in
      recorded-forwarded done sess.tainted result p h

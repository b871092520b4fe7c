-- ===== src/Proxy/Govern/Audited.antt =====
-- What governing a call writes to the audit log.
use truebearing.Base.{
  ℕ, String, ◌≡◌, inl, inr, refl, Bool, true, false, some, List, [], ◌∷◌, ◌++◌, arith, ap, ◌∙◌, sym,
}
use truebearing.Audit.{canonical_json, sign}
use truebearing.Engine.Types.{Decision}
use truebearing.Go.{Result, ok, err, Result-cases}
use truebearing.Policy.{Policy}
use truebearing.Proxy.Govern.{decide, event_of, record_event, recorded, run_pipeline}
use truebearing.Proxy.Auth.{bearer_token}
use truebearing.Proxy.Handler.{
  audit_record_of, build_delegation_chain, extract_client_trace_id, Incoming, token_of,
  write_audit_record,
}
use truebearing.Proxy.Handler.Audited.{write_audit_record-log, write_audit_record-strict}
use truebearing.Proxy.Response.{forwarded}
use truebearing.Proxy.State.{Libraries, Proxy, Conditions}
use truebearing.Session.{Session}
use truebearing.Store.Audit.{to_row}
use truebearing.Store.Events.{append_event}
use truebearing.Store.Events.Log.{append_event-audit_log, append_event-ok}
use truebearing.Store.Rows.{Store, AuditRecord, AuditRow, nullable_string}
use truebearing.Proxy.Govern.Recording.{
  decision_word, decision_word_lem, next_number, persist_taint-forwarded, persist_taint-IsSameLog,
}

-- Signing sets the signature and nothing else.
sign_only :
    (libs : Libraries) (rec : AuditRecord) (key : String) (signed : AuditRecord)
    → sign libs.rt libs.signer rec key ≡ ok signed
    → signed ≡ record rec { signature = signed.signature }
unfolding sign
sign_only libs rec key signed h = elim (Result-cases (canonical_json libs.rt libs.signer rec)) [
  | inl (payload, e) ↦ ground (arith, h, e)
  | inr (fault, e) ↦ ground (arith, h, e)
]

module _ (libs : Libraries) (now : Conditions) (inc : Incoming) (pol : Policy) where
  recorded-audited :
      (r : Result ℕ × Store) (before : Bool) (result : Decision × Session) (p : Proxy)
      → {key : String} → p.signing_key ≡ some key
      → p.audit_strict ≡ true
      → ((rec : AuditRecord)
          → (signed : AuditRecord) × (sign libs.rt libs.signer rec key ≡ ok signed))
      → r.1.audit_log ≡ p.store.audit_log
      → (recorded libs now r inc before result pol p).response ≡ forwarded
      → (seq : ℕ) × (signed : AuditRecord) × (r.0 ≡ ok seq)
        × (sign libs.rt libs.signer (audit_record_of libs now inc seq result.0 pol.fingerprint) key
            ≡ ok signed)
        × ((recorded libs now r inc before result pol p).state.store.audit_log
            ≡ p.store.audit_log ++ to_row signed ∷ [])
  unfolding recorded
  recorded-audited (err e, s) before (d, sess) p k strict signs same_log h = ground arith
  recorded-audited (ok seq, s) before (d, sess) p k strict signs same_log h =
      let p' = record p { store = s } in
      let after = write_audit_record libs now inc seq d pol.fingerprint p' in
      let passed = persist_taint-forwarded libs now inc d pol before sess seq after h in
      let strict' = write_audit_record-strict libs now inc seq d pol.fingerprint p' ∙ strict in
      let written : after.0 ≡ false = ground (arith, passed, strict') in
      let made = signs (audit_record_of libs now inc seq d pol.fingerprint) in
      (
        seq,
        made.0,
        refl,
        made.1,
        (persist_taint-IsSameLog libs now inc d pol before sess seq after).1
            ∙ write_audit_record-log libs now inc seq d pol.fingerprint p' k made.1 written
            ∙ ap (λ (rows : List AuditRow). rows ++ to_row made.0 ∷ []) same_log,
      )

  -- The audit record of a decision, before it is signed.
  abbrev pub unsigned_record : Decision → Proxy → AuditRecord
  unsigned_record d p = record {
    id = now.audit_id;
    session_id = inc.session_id;
    seq = next_number libs now inc pol p;
    agent_name = inc.claims.agent_name;
    tool_name = inc.params.name;
    arguments_sha256 = libs.rt.sha256_hex inc.params.arguments;
    decision = decision_word d.action;
    decision_reason = d.reason;
    policy_fingerprint = pol.fingerprint;
    agent_jwt_sha256 =
        libs.rt.sha256_hex (token_of (bearer_token libs.rt libs.auth inc.request.authorization));
    client_trace_id = extract_client_trace_id inc.request.headers;
    delegation_chain = build_delegation_chain inc.claims.parent_agent inc.claims.agent_name;
    recorded_at = now.now;
    signature = "";
  }

  -- Its row under a signature, where an empty reason, trace or chain is NULL.
  abbrev pub audit_row : Decision → Proxy → String → AuditRow
  audit_row d p signature = record {
    id = now.audit_id;
    session_id = inc.session_id;
    seq = next_number libs now inc pol p;
    agent_name = inc.claims.agent_name;
    tool_name = inc.params.name;
    arguments_sha256 = libs.rt.sha256_hex inc.params.arguments;
    decision = decision_word d.action;
    decision_reason = nullable_string d.reason;
    policy_fingerprint = pol.fingerprint;
    agent_jwt_sha256 =
        libs.rt.sha256_hex (token_of (bearer_token libs.rt libs.auth inc.request.authorization));
    client_trace_id = nullable_string (extract_client_trace_id inc.request.headers);
    delegation_chain =
        nullable_string (build_delegation_chain inc.claims.parent_agent inc.claims.agent_name);
    recorded_at = now.now;
    signature = signature;
  }

  -- In strict mode with a signing key, and if every record can be signed, a forwarded call has left its
  -- record at the end of the audit log: under the number of its event, with the decision's action and
  -- reason, the session, agent, tool and policy of the call, the hashes of its arguments and its token,
  -- its trace and delegation chain, and the time, and with the signature that signing this very record
  -- gives.
  pub run_pipeline-audited :
      (sess : Session) (p : Proxy) {key : String}
      → p.signing_key ≡ some key
      → p.audit_strict ≡ true
      → ((rec : AuditRecord)
          → (signed : AuditRecord) × (sign libs.rt libs.signer rec key ≡ ok signed))
      → (run_pipeline libs now inc sess pol p).response ≡ forwarded
      → let d = (decide libs now inc sess pol p).0 in
        (signature : String) × (sign libs.rt libs.signer (unsigned_record d p) key
          ≡ ok (record (unsigned_record d p) { signature = signature }))
        × ((run_pipeline libs now inc sess pol p).state.store.audit_log
            ≡ p.store.audit_log ++ audit_row d p signature ∷ [])
  unfolding run_pipeline record_event event_of audit_record_of to_row
  run_pipeline-audited sess p {key} k strict signs h =
      let result = decide libs now inc sess pol p in
      let event = event_of libs now inc result.0 in
      let done = append_event libs.rt now.append_fault now.refused now.now event p.store in
      let (seq, signed, numbered, signing, log) =
        recorded-audited done sess.tainted result p k strict signs
          (append_event-audit_log libs.rt now.append_fault now.refused now.now event p.store) h in
      let same_number =
        (append_event-ok libs.rt now.append_fault now.refused now.now event p.store numbered).0 in
      let own =
        ap
          (λ w. sign libs.rt libs.signer (record (unsigned_record result.0 p) { decision = w }) key)
          (sym (decision_word_lem result.0.action))
        ∙ ap
            (λ (n : ℕ).
              sign libs.rt libs.signer (audit_record_of libs now inc n result.0 pol.fingerprint)
                key)
            (sym same_number)
        ∙ signing in
      let only_signed = sign_only libs (unsigned_record result.0 p) key signed own in
      (
        signed.signature,
        own ∙ ap ok only_signed,
        log ∙ ap (λ (rec : AuditRecord). p.store.audit_log ++ to_row rec ∷ []) only_signed,
      )

-- ===== src/Proxy/Handler/Audited.antt =====
-- The audit record that `writeAuditRecord` leaves.
use truebearing.Base.{
  ℕ, String, ◌≡◌, refl, Bool, false, Option, none, some, [], ◌∷◌, ◌++◌, arith, ap, ◌∙◌, sym,
}
use truebearing.Audit.{sign, write}
use truebearing.Audit.Written.{write-events, write-audit_log}
use truebearing.Engine.Types.{Decision}
use truebearing.Go.{Result, ok, err}
use truebearing.Proxy.Handler.{
  Incoming, audit_record_of, write_audit_record, write_with_key, write_signed, written,
}
use truebearing.Proxy.State.{Libraries, Proxy, Conditions}
use truebearing.Store.Audit.{to_row}
use truebearing.Store.Rows.{Store, AuditRecord}

module _ (libs : Libraries) (now : Conditions) where
  written-store : (r : Result (Unit {0}) × Store) (p : Proxy) → (written libs now r p).1.store ≡ r.1
  unfolding written
  written-store (ok t, s) p = refl
  written-store (err e, s) p = refl

  written-ok :
      (r : Result (Unit {0}) × Store) (p : Proxy) → (written libs now r p).0 ≡ false → r.0 ≡ ok tt
  unfolding written
  written-ok (ok t, s) p h = refl
  written-ok (err e, s) p h = ground arith

  write_signed-events :
      (r : Result AuditRecord) (p : Proxy)
      → (write_signed libs now r p).1.store.session_events ≡ p.store.session_events
  unfolding write_signed
  write_signed-events (err e) p = refl
  write_signed-events (ok rec) p =
      ap (λ (s : Store). s.session_events)
        (written-store (write libs.rt libs.signer now.audit_fault now.duplicate rec p.store) p)
      ∙ write-events libs.rt libs.signer now.audit_fault now.duplicate rec p.store

  write_with_key-events :
      (key : Option String) (inc : Incoming) (seq : ℕ) (d : Decision) (fingerprint : String)
      (p : Proxy)
      → (write_with_key libs now key inc seq d fingerprint p).1.store.session_events
        ≡ p.store.session_events
  unfolding write_with_key
  write_with_key-events none inc seq d fingerprint p = refl
  write_with_key-events (some key) inc seq d fingerprint p =
      write_signed-events
        (sign libs.rt libs.signer (audit_record_of libs now inc seq d fingerprint) key) p

  pub write_audit_record-events :
      (inc : Incoming) (seq : ℕ) (d : Decision) (fingerprint : String) (p : Proxy)
      → (write_audit_record libs now inc seq d fingerprint p).1.store.session_events
        ≡ p.store.session_events
  unfolding write_audit_record
  write_audit_record-events inc seq d fingerprint p =
      write_with_key-events p.signing_key inc seq d fingerprint p

  write_signed-log :
      (rec : AuditRecord) (p : Proxy)
      → (write_signed libs now (ok rec) p).0 ≡ false
      → (write_signed libs now (ok rec) p).1.store.audit_log ≡ p.store.audit_log ++ to_row rec ∷ []
  unfolding write_signed
  write_signed-log rec p h =
      let r = write libs.rt libs.signer now.audit_fault now.duplicate rec p.store in
      ap (λ (s : Store). s.audit_log) (written-store r p)
      ∙ write-audit_log libs.rt libs.signer now.audit_fault now.duplicate rec p.store
          (written-ok r p h)

  -- With a key, a record that can be signed is in the log unless the write is reported as failed.
  pub write_audit_record-log :
      (inc : Incoming) (seq : ℕ) (d : Decision) (fingerprint : String) (p : Proxy)
      → {key : String} {rec : AuditRecord} → p.signing_key ≡ some key
      → sign libs.rt libs.signer (audit_record_of libs now inc seq d fingerprint) key ≡ ok rec
      → (write_audit_record libs now inc seq d fingerprint p).0 ≡ false
      → (write_audit_record libs now inc seq d fingerprint p).1.store.audit_log
        ≡ p.store.audit_log ++ to_row rec ∷ []
  unfolding write_audit_record write_with_key
  write_audit_record-log inc seq d fingerprint p {key} {rec} k g h =
      let at_key =
        ap (λ (o : Option String). write_with_key libs now o inc seq d fingerprint p) k
        ∙ ap (λ (r : Result AuditRecord). write_signed libs now r p) g in
      ap (λ (r : Bool × Proxy). r.1.store.audit_log) at_key
      ∙ write_signed-log rec p (sym (ap (λ (r : Bool × Proxy). r.0) at_key) ∙ h)

  written-strict :
      (r : Result (Unit {0}) × Store) (p : Proxy)
      → (written libs now r p).1.audit_strict ≡ p.audit_strict
  unfolding written
  written-strict (ok t, s) p = refl
  written-strict (err e, s) p = refl

  write_signed-strict :
      (r : Result AuditRecord) (p : Proxy)
      → (write_signed libs now r p).1.audit_strict ≡ p.audit_strict
  unfolding write_signed
  write_signed-strict (err e) p = refl
  write_signed-strict (ok rec) p =
      written-strict (write libs.rt libs.signer now.audit_fault now.duplicate rec p.store) p

  write_with_key-strict :
      (key : Option String) (inc : Incoming) (seq : ℕ) (d : Decision) (fingerprint : String)
      (p : Proxy)
      → (write_with_key libs now key inc seq d fingerprint p).1.audit_strict ≡ p.audit_strict
  unfolding write_with_key
  write_with_key-strict none inc seq d fingerprint p = refl
  write_with_key-strict (some key) inc seq d fingerprint p =
      write_signed-strict
        (sign libs.rt libs.signer (audit_record_of libs now inc seq d fingerprint) key) p

  -- Writing a record leaves the strictness of the audit as it is.
  pub write_audit_record-strict :
      (inc : Incoming) (seq : ℕ) (d : Decision) (fingerprint : String) (p : Proxy)
      → (write_audit_record libs now inc seq d fingerprint p).1.audit_strict ≡ p.audit_strict
  unfolding write_audit_record
  write_audit_record-strict inc seq d fingerprint p =
      write_with_key-strict p.signing_key inc seq d fingerprint p

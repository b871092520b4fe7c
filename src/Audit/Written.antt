-- ===== src/Audit/Written.antt =====
-- What `Write` of internal/audit/writer.go adds to the log.
use truebearing.Base.{◌≡◌, refl, Option, [], ◌∷◌, ◌++◌, arith, ap, ◌∙◌}
use truebearing.Audit.{Signer, write, wrap_write}
use truebearing.Go.{Runtime, GoError, Result, ok, err}
use truebearing.Store.Audit.{append_audit_record, to_row}
use truebearing.Store.Rows.{Store, AuditRecord}

module _ (rt : Runtime) (signer : Signer) where
  append-events :
      (fault : Option GoError) (duplicate : GoError) (rec : AuditRecord) (s : Store)
      → (append_audit_record rt fault duplicate rec s).1.session_events ≡ s.session_events
  unfolding append_audit_record
  append-events fault duplicate rec s = ground arith

  append-audit_log :
      (fault : Option GoError) (duplicate : GoError) (rec : AuditRecord) (s : Store)
      → (append_audit_record rt fault duplicate rec s).0 ≡ ok tt
      → (append_audit_record rt fault duplicate rec s).1.audit_log ≡ s.audit_log ++ to_row rec ∷ []
  unfolding append_audit_record
  append-audit_log fault duplicate rec s h = ground arith

  wrap_write-store :
      (r : Result (Unit {0}) × Store) (rec : AuditRecord) → (wrap_write rt signer r rec).1 ≡ r.1
  unfolding wrap_write
  wrap_write-store (ok t, s) rec = refl
  wrap_write-store (err e, s) rec = refl

  wrap_write-ok :
      (r : Result (Unit {0}) × Store) (rec : AuditRecord)
      → (wrap_write rt signer r rec).0 ≡ ok tt
      → r.0 ≡ ok tt
  unfolding wrap_write
  wrap_write-ok (ok t, s) rec h = refl
  wrap_write-ok (err e, s) rec h = ground arith

  pub write-events :
      (fault : Option GoError) (duplicate : GoError) (rec : AuditRecord) (s : Store)
      → (write rt signer fault duplicate rec s).1.session_events ≡ s.session_events
  unfolding write
  write-events fault duplicate rec s =
      ap (λ (t : Store). t.session_events)
        (wrap_write-store (append_audit_record rt fault duplicate rec s) rec)
      ∙ append-events fault duplicate rec s

  pub write-audit_log :
      (fault : Option GoError) (duplicate : GoError) (rec : AuditRecord) (s : Store)
      → (write rt signer fault duplicate rec s).0 ≡ ok tt
      → (write rt signer fault duplicate rec s).1.audit_log ≡ s.audit_log ++ to_row rec ∷ []
  unfolding write
  write-audit_log fault duplicate rec s h =
      let r = append_audit_record rt fault duplicate rec s in
      ap (λ (t : Store). t.audit_log) (wrap_write-store r rec)
      ∙ append-audit_log fault duplicate rec s (wrap_write-ok r rec h)

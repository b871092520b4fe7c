-- ===== src/Store/Audit.antt =====
-- internal/store/audit.go: the append-only audit log.
use truebearing.Base.{String, Bool, Option, none, some, [], ◌∷◌, ◌++◌, ◌==◌, if◌then◌else◌, any}
use truebearing.Go.{Runtime, GoError, Result, ok, err, wrapf}
use truebearing.Store.Rows.{Store, AuditRecord, AuditRow, nullable_string, from_null}

unfoldable pub to_row : AuditRecord → AuditRow
to_row rec = record {
  id = rec.id;
  session_id = rec.session_id;
  seq = rec.seq;
  agent_name = rec.agent_name;
  tool_name = rec.tool_name;
  arguments_sha256 = rec.arguments_sha256;
  decision = rec.decision;
  decision_reason = nullable_string rec.decision_reason;
  policy_fingerprint = rec.policy_fingerprint;
  agent_jwt_sha256 = rec.agent_jwt_sha256;
  client_trace_id = nullable_string rec.client_trace_id;
  delegation_chain = nullable_string rec.delegation_chain;
  recorded_at = rec.recorded_at;
  signature = rec.signature;
}

-- The scan of a row.
unfoldable pub from_row : AuditRow → AuditRecord
from_row row = record {
  id = row.id;
  session_id = row.session_id;
  seq = row.seq;
  agent_name = row.agent_name;
  tool_name = row.tool_name;
  arguments_sha256 = row.arguments_sha256;
  decision = row.decision;
  decision_reason = from_null row.decision_reason;
  policy_fingerprint = row.policy_fingerprint;
  agent_jwt_sha256 = row.agent_jwt_sha256;
  client_trace_id = from_null row.client_trace_id;
  delegation_chain = from_null row.delegation_chain;
  recorded_at = row.recorded_at;
  signature = row.signature;
}

module _ (rt : Runtime) where
  -- `duplicate` is the driver's error for a primary key that is taken.
  unfoldable pub append_audit_record :
      Option GoError → GoError → AuditRecord → Store → Result (Unit {0}) × Store
  append_audit_record (some e) duplicate rec s =
      (err (wrapf ("appending audit record " ∷ rec.id ∷ ": " ∷ []) e), s)
  append_audit_record none duplicate rec s =
      if any (λ r. r.id == rec.id) s.audit_log
      then (err (wrapf ("appending audit record " ∷ rec.id ∷ ": " ∷ []) duplicate), s)
      else (ok tt, record s { audit_log = s.audit_log ++ to_row rec ∷ [] })

  unfoldable pub has_audit_records_for_fingerprint : Option GoError → String → Store → Result Bool
  has_audit_records_for_fingerprint (some e) fingerprint s =
      err (wrapf ("checking audit records for fingerprint " ∷ fingerprint ∷ ": " ∷ []) e)
  has_audit_records_for_fingerprint none fingerprint s =
      ok (any (λ r. r.policy_fingerprint == fingerprint) s.audit_log)

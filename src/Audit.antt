-- ===== src/Audit.antt =====
-- internal/audit/sign.go and writer.go: the signature of an audit record, and its write. Of the
-- cryptography and of encoding/json the model takes the functions as parameters.
pub mod Written
pub mod Signed
use truebearing.Base.{
  ℕ, ℤ, pos, String, Bool, not, Option, none, some, List, [], ◌∷◌, ◌++◌, ◌==◌, if◌then◌else◌,
}
use truebearing.Go.{Runtime, GoError, Result, ok, err, text, errorf, wrapf}
use truebearing.Store.Rows.{Store, AuditRecord}
use truebearing.Store.Audit.{append_audit_record}

-- A value of the `map[string]any`.
pub data JsonValue : Type 0 where
  str : String → JsonValue
  int64 : ℤ → JsonValue
  uint64 : ℕ → JsonValue

-- `json.Marshal` of a map, Ed25519, and base64.
pub record Signer : Type 0 where
  pub marshal : List (String × JsonValue) → Result String
  pub ed25519_sign : String → String → String
  pub ed25519_verify : String → String → String → Bool
  pub encode_base64 : String → String
  pub decode_base64 : String → Result String

-- `if value != "" { m[key] = value }`
unfoldable pub optional : String → String → List (String × JsonValue)
optional key value = if not (value == "") then (key, str value) ∷ [] else []

-- The map that `canonicalJSON` marshals.
unfoldable pub canonical_map : AuditRecord → List (String × JsonValue)
unfolding optional
canonical_map r =
    ("agent_jwt_sha256", str r.agent_jwt_sha256)
    ∷ ("agent_name", str r.agent_name)
    ∷ ("arguments_sha256", str r.arguments_sha256)
    ∷ ("decision", str r.decision)
    ∷ ("id", str r.id)
    ∷ ("policy_fingerprint", str r.policy_fingerprint)
    ∷ ("recorded_at", int64 r.recorded_at)
    ∷ ("seq", uint64 r.seq)
    ∷ ("session_id", str r.session_id)
    ∷ ("tool_name", str r.tool_name)
    ∷ (optional "client_trace_id" r.client_trace_id
        ++ (optional "decision_reason" r.decision_reason
            ++ optional "delegation_chain" r.delegation_chain))

module _ (rt : Runtime) (signer : Signer) where
  unfoldable pub canonical_json : AuditRecord → Result String
  unfolding canonical_map
  canonical_json r = signer.marshal (canonical_map r)

  sign_payload : Result String → AuditRecord → String → Result AuditRecord
  sign_payload (err e) r key =
      err (wrapf ("computing canonical JSON for record " ∷ r.id ∷ ": " ∷ []) e)
  sign_payload (ok payload) r key =
      ok (record r { signature = signer.encode_base64 (signer.ed25519_sign key payload) })

  unfoldable pub sign : AuditRecord → String → Result AuditRecord
  unfolding canonical_json sign_payload
  sign r key = sign_payload (canonical_json r) r key

  check_signature : Result String → String → AuditRecord → String → Result (Unit {0})
  check_signature (err e) payload r key =
      err (wrapf ("decoding signature for record " ∷ r.id ∷ ": " ∷ []) e)
  check_signature (ok sig) payload r key =
      if not (signer.ed25519_verify key payload sig)
      then err (errorf ("signature verification failed for record " ∷ r.id ∷ []))
      else ok tt

  verify_payload : Result String → AuditRecord → String → Result (Unit {0})
  unfolding check_signature
  verify_payload (err e) r key =
      err (wrapf ("computing canonical JSON for record " ∷ r.id ∷ ": " ∷ []) e)
  verify_payload (ok payload) r key =
      check_signature (signer.decode_base64 r.signature) payload r key

  unfoldable pub verify : AuditRecord → String → Result (Unit {0})
  unfolding canonical_json verify_payload
  verify r key =
      if r.signature == ""
      then err (errorf ("record " ∷ r.id ∷ " has no signature" ∷ []))
      else verify_payload (canonical_json r) r key

  wrap_write : Result (Unit {0}) × Store → AuditRecord → Result (Unit {0}) × Store
  wrap_write (err e, s) r = (err (wrapf ("writing audit record " ∷ r.id ∷ ": " ∷ []) e), s)
  wrap_write (ok t, s) r = (ok t, s)

  unfoldable pub write : Option GoError → GoError → AuditRecord → Store → Result (Unit {0}) × Store
  unfolding wrap_write
  write fault duplicate r s = wrap_write (append_audit_record rt fault duplicate r s) r

-- ===== src/Tests/Signatures.antt =====
-- The signature of a concrete audit record.
use truebearing.Audit.{canonical_map, sign, verify}
use truebearing.Audit.Signed.{canonical_map-injective, IsKeyPair, verify-sign}
use truebearing.Base.{pos, ◌≡◌, refl, arith, eq_iff}
use truebearing.Go.{ok}
use truebearing.Store.Rows.{AuditRecord}
use truebearing.Tests.World.{test_libraries, test_runtime}

abbrev unsigned : AuditRecord
unsigned = record {
  id = "a1";
  session_id = "s1";
  seq = 1;
  agent_name = "bot";
  tool_name = "read";
  arguments_sha256 = "{}";
  decision = "allow";
  decision_reason = "";
  policy_fingerprint = "f1";
  agent_jwt_sha256 = "jwt";
  client_trace_id = "traceparent=1";
  delegation_chain = "";
  recorded_at = pos 7;
  signature = "";
}

key_pair : IsKeyPair test_runtime test_libraries.signer "private" "public"
key_pair = record {
  verifies = λ payload. (eq_iff "sig" "sig").1 refl;
  decodes = λ s. refl;
  is_text = λ payload h. ground (arith, eq_iff "sig" "");
}

record_is_signed :
    sign test_runtime test_libraries.signer unsigned "private"
    ≡ ok (record unsigned { signature = "sig" })
unfolding sign
record_is_signed = refl

verify-sign_example :
    verify test_runtime test_libraries.signer (record unsigned { signature = "sig" }) "public"
    ≡ ok tt
verify-sign_example =
    verify-sign test_runtime test_libraries.signer unsigned (record unsigned { signature = "sig" })
      "private" "public" key_pair record_is_signed

same_map : canonical_map unsigned ≡ canonical_map (record unsigned { signature = "sig" })
unfolding canonical_map
same_map = refl

canonical_map-injective_example :
    record unsigned { signature = "" }
    ≡ record (record unsigned { signature = "sig" }) { signature = "" }
canonical_map-injective_example =
    canonical_map-injective unsigned (record unsigned { signature = "sig" }) same_map

-- ===== src/Audit/Signed.antt =====
-- A signed record verifies, and the signed payload fixes every other field of the record.
use truebearing.Base.{String, ◌≡◌, ◌≢◌, refl, true, false, ◌==◌, arith, eq_iff, ap, ◌∙◌}
use truebearing.Audit.{
  canonical_json, canonical_map, check_signature, sign, sign_payload, Signer, verify,
  verify_payload,
}
use truebearing.Go.{Runtime, Result, ok, err}
use truebearing.Store.Rows.{AuditRecord}

module _ (rt : Runtime) (signer : Signer) where
  -- A key pair: what the private key signs, the public key verifies, and a signature survives base64,
  -- where its text is not empty.
  pub record IsKeyPair (private_key public_key : String) : Type 0 where
    pub verifies :
        (payload : String)
        → signer.ed25519_verify public_key payload (signer.ed25519_sign private_key payload) ≡ true
    pub decodes : (s : String) → signer.decode_base64 (signer.encode_base64 s) ≡ ok s
    pub is_text :
        (payload : String) → signer.encode_base64 (signer.ed25519_sign private_key payload) ≢ ""

  -- The record that `Sign` leaves.
  abbrev signed_with : AuditRecord → String → String → AuditRecord
  signed_with r payload private_key = record r {
    signature = signer.encode_base64 (signer.ed25519_sign private_key payload);
  }

  check_signature-ok :
      (decoded : Result String) (payload sig : String) (r : AuditRecord) (key : String)
      → decoded ≡ ok sig
      → signer.ed25519_verify key payload sig ≡ true
      → check_signature rt signer decoded payload r key ≡ ok tt
  unfolding check_signature
  check_signature-ok (err e) payload sig r key d v = ground arith
  check_signature-ok (ok sig') payload sig r key d v = ground arith

  verify_payload-ok :
      (m : Result String) (r : AuditRecord) (payload private_key public_key : String)
      → IsKeyPair private_key public_key
      → m ≡ ok payload
      → verify_payload rt signer m (signed_with r payload private_key) public_key ≡ ok tt
  unfolding verify_payload
  verify_payload-ok (err e) r payload private_key public_key pair h = ground arith
  verify_payload-ok (ok payload') r payload private_key public_key pair h =
      let sig = signer.ed25519_sign private_key payload in
      check_signature-ok (signer.decode_base64 (signer.encode_base64 sig)) payload' sig
        (signed_with r payload private_key) public_key (pair.decodes sig)
        (ap (λ p. signer.ed25519_verify public_key p sig) (same_payload h) ∙ pair.verifies payload)
    where
      same_payload : ok payload' ≡ ok payload → payload' ≡ payload
      same_payload e = ground arith

  verify_signed :
      (r : AuditRecord) (payload private_key public_key : String)
      → IsKeyPair private_key public_key
      → canonical_json rt signer r ≡ ok payload
      → verify rt signer (signed_with r payload private_key) public_key ≡ ok tt
  unfolding verify
  verify_signed r payload private_key public_key pair h =
      rw
        (has_text (signer.encode_base64 (signer.ed25519_sign private_key payload))
          (pair.is_text payload))
        (verify_payload-ok (canonical_json rt signer (signed_with r payload private_key)) r payload
          private_key public_key pair (same_json ∙ h))
    where
      has_text : (s : String) → s ≢ "" → (s == "") ≡ false
      has_text s n = ground (arith, eq_iff s "")

      same_json :
          canonical_json rt signer (signed_with r payload private_key) ≡ canonical_json rt signer r
      same_json = refl

  signed-verifies :
      (m : Result String) (r signed : AuditRecord) (private_key public_key : String)
      → IsKeyPair private_key public_key
      → canonical_json rt signer r ≡ m
      → sign_payload rt signer m r private_key ≡ ok signed
      → verify rt signer signed public_key ≡ ok tt
  unfolding sign_payload
  signed-verifies (err e) r signed private_key public_key pair h k = ground arith
  signed-verifies (ok payload) r signed private_key public_key pair h k =
      ap (λ s. verify rt signer s public_key) (same_record k)
      ∙ verify_signed r payload private_key public_key pair h
    where
      same_record :
          ok (signed_with r payload private_key) ≡ ok signed
          → signed ≡ signed_with r payload private_key
      same_record e = ground arith

  -- A record that `Sign` returns is accepted by `Verify` with the public key of the pair.
  pub verify-sign :
      (r signed : AuditRecord) (private_key public_key : String)
      → IsKeyPair private_key public_key
      → sign rt signer r private_key ≡ ok signed
      → verify rt signer signed public_key ≡ ok tt
  unfolding sign
  verify-sign r signed private_key public_key pair h =
      signed-verifies (canonical_json rt signer r) r signed private_key public_key pair refl h

-- Two records with the same signed map agree in every field but the signature, also where an optional
-- field is left out of the map because it is empty.
pub canonical_map-injective :
    (r r' : AuditRecord)
    → canonical_map r ≡ canonical_map r'
    → record r { signature = "" } ≡ record r' { signature = "" }
unfolding canonical_map
canonical_map-injective r r' h = ground (
  arith,
  eq_iff r.client_trace_id "",
  eq_iff r.decision_reason "",
  eq_iff r.delegation_chain "",
  eq_iff r'.client_trace_id "",
  eq_iff r'.decision_reason "",
  eq_iff r'.delegation_chain "",
  eq_iff "client_trace_id" "decision_reason",
  eq_iff "client_trace_id" "delegation_chain",
  eq_iff "decision_reason" "delegation_chain",
)

-- ===== src/Proxy/Auth.antt =====
-- internal/proxy/auth.go and ValidateAgentJWT of internal/identity/jwt.go: a request passes only with a
-- valid token of a registered agent that is not revoked.
pub mod Authentic
pub mod Refused
use truebearing.Base.{
  String, ◌≡◌, ◌⊎◌, inl, inr, Bool, true, false, not, Option, none, some, List, [], ◌∷◌, ◌==◌,
  if◌then◌else◌,
}
use truebearing.Go.{Runtime, GoError, ErrorKind, no_rows, Result, ok, err, text, errorf, wrapf}
use truebearing.Proxy.Response.{Response, unauthorized}
use truebearing.Store.Agents.{get_agent, is_revoked}
use truebearing.Store.Rows.{Store, Agent}

pub record AgentClaims : Type 0 where
  pub agent_name : String
  pub parent_agent : String
  pub env : String

-- A key that `x509.ParsePKIXPublicKey` returns.
pub data PublicKey : Type 0 where
  ed25519 : String → PublicKey
  other_key : PublicKey

-- base64, JSON, PEM, X.509 and the JWT library; `parse_with_claims` is the parser locked to EdDSA with
-- a required expiry, and answers the claims and `token.Valid`.
pub record AuthLibraries : Type 0 where
  pub decode_segment : String → Result String
  pub decode_agent : String → Result String
  pub pem_block : String → Option String
  pub parse_pkix : String → Result PublicKey
  pub parse_with_claims : String → String → Result (AgentClaims × Bool)

module _ (rt : Runtime) (libs : AuthLibraries) where
  -- `auth` is the Authorization header, empty if absent.
  unfoldable pub bearer_token : String → Result String
  bearer_token auth =
      let token = rt.trim_prefix auth "Bearer " in
      if auth == ""
      then err (errorf ("missing Authorization header" ∷ []))
      else if not (rt.has_prefix auth "Bearer ")
      then err (errorf ("Authorization header must use Bearer scheme" ∷ []))
      else if token == ""
      then err (errorf ("empty Bearer token" ∷ []))
      else ok token

  claim_of_json : Result String → Result String
  claim_of_json (err e) = err (wrapf ("parsing JWT payload JSON: " ∷ []) e)
  claim_of_json (ok agent) = ok agent

  claim_of_payload : Result String → Result String
  unfolding claim_of_json
  claim_of_payload (err e) = err (wrapf ("decoding JWT payload segment: " ∷ []) e)
  claim_of_payload (ok payload) = claim_of_json (libs.decode_agent payload)

  claim_of_segments : List String → Result String
  unfolding claim_of_payload
  claim_of_segments (header ∷ payload ∷ signature ∷ []) =
      claim_of_payload (libs.decode_segment payload)
  claim_of_segments _ = err (errorf ("JWT must have exactly three dot-separated segments" ∷ []))

  unfoldable pub unverified_agent_claim : String → Result String
  unfolding claim_of_segments
  unverified_agent_claim token = claim_of_segments (rt.split token ".")

  ed25519_of : Result PublicKey → Result String
  ed25519_of (err e) = err (wrapf ("parsing PKIX public key: " ∷ []) e)
  ed25519_of (ok other_key) = err (errorf ("agent key is not an Ed25519 public key" ∷ []))
  ed25519_of (ok (ed25519 key)) = ok key

  key_of_block : Option String → Result String
  unfolding ed25519_of
  key_of_block none = err (errorf ("no PEM block found in agent public key" ∷ []))
  key_of_block (some bytes) = ed25519_of (libs.parse_pkix bytes)

  unfoldable pub parse_public_key_pem : String → Result String
  unfolding key_of_block
  parse_public_key_pem pem = key_of_block (libs.pem_block pem)

  claims_of : Result (AgentClaims × Bool) → Result AgentClaims
  claims_of (err e) = err (wrapf ("validating agent JWT: " ∷ []) e)
  claims_of (ok (claims, valid)) =
      if not valid
      then err (errorf ("agent JWT is not valid" ∷ []))
      else if claims.agent_name == ""
      then err (errorf ("JWT is missing required \"agent\" claim" ∷ []))
      else ok claims

  unfoldable pub validate_agent_jwt : String → String → Result AgentClaims
  unfolding claims_of
  validate_agent_jwt token key = claims_of (libs.parse_with_claims token key)

  -- The end of the middleware: the claims for the next handler, or the refusal.
  admit : Result AgentClaims → Response ⊎ AgentClaims
  admit (err e) = inl (unauthorized "invalid or expired token")
  admit (ok claims) = inr claims

  with_key : Result String → String → Response ⊎ AgentClaims
  unfolding admit validate_agent_jwt
  with_key (err e) token = inl (unauthorized "invalid agent credentials")
  with_key (ok key) token = admit (validate_agent_jwt token key)

  not_found : ErrorKind → Response
  not_found no_rows = unauthorized "agent not registered"
  not_found _ = unauthorized "agent lookup failed"

  with_agent : Result Agent → String → Response ⊎ AgentClaims
  unfolding not_found with_key parse_public_key_pem
  with_agent (err e) token = inl (not_found e.kind)
  with_agent (ok a) token =
      if is_revoked a
      then inl (unauthorized "agent credentials revoked")
      else with_key (parse_public_key_pem a.public_key_pem) token

  with_name : Result String → String → Option GoError → Store → Response ⊎ AgentClaims
  unfolding with_agent
  with_name (err e) token fault s = inl (unauthorized "malformed token")
  with_name (ok name) token fault s =
      if name == ""
      then inl (unauthorized "token missing required agent claim")
      else with_agent (get_agent rt fault name s) token

  with_token : Result String → Option GoError → Store → Response ⊎ AgentClaims
  unfolding with_name unverified_agent_claim
  with_token (err e) fault s = inl (unauthorized e.message)
  with_token (ok token) fault s = with_name (unverified_agent_claim token) token fault s

  unfoldable pub auth_middleware : String → Option GoError → Store → Response ⊎ AgentClaims
  unfolding with_token bearer_token
  auth_middleware auth fault s = with_token (bearer_token auth) fault s

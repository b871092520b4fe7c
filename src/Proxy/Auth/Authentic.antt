-- ===== src/Proxy/Auth/Authentic.antt =====
-- Exactly the requests that the middleware admits.
use truebearing.Base.{
  String, ◌≡◌, ◌≢◌, inl, inr, refl, Bool, true, false, Option, none, some, ◌==◌, arith, eq_iff,
  Bool-cases,
}
use truebearing.Go.{Runtime, GoError, ErrorKind, Result, ok, err}
use truebearing.Proxy.Auth.{
  admit, AgentClaims, auth_middleware, AuthLibraries, bearer_token, claims_of, not_found,
  parse_public_key_pem, unverified_agent_claim, validate_agent_jwt, with_agent, with_key, with_name,
  with_token,
}
use truebearing.Store.Agents.{agent_or_missing, find_agent, get_agent, is_revoked}
use truebearing.Store.Rows.{Store, Agent}

module _ (rt : Runtime) (libs : AuthLibraries) (s : Store) (claims : AgentClaims) where
  -- What the JWT library verified with a key.
  abbrev IsVerified : String → String → Type 0
  IsVerified token key =
      (libs.parse_with_claims token key ≡ ok (claims, true)) × (claims.agent_name ≢ "")

  -- An agent that is not revoked and whose key verifies the token.
  pub record IsCredential (token : String) (a : Agent) : Type 0 where
    pub is_active : a.revoked_at ≡ none
    pub key : String
    pub has_key : parse_public_key_pem rt libs a.public_key_pem ≡ ok key
    pub is_verified : IsVerified token key

  -- The claims of a request: of a token that names a registered agent.
  pub record IsAuthentic (auth : String) : Type 0 where
    pub token : String
    pub has_token : bearer_token rt libs auth ≡ ok token
    pub name : String
    pub has_name : unverified_agent_claim rt libs token ≡ ok name
    pub is_named : name ≢ ""
    pub agent : Agent
    pub is_registered : find_agent s.agents name ≡ some agent
    pub credential : IsCredential token agent

  claims_of-ok :
      (r : Result (AgentClaims × Bool))
      → claims_of rt libs r ≡ ok claims
      → (r ≡ ok (claims, true)) × (claims.agent_name ≢ "")
  unfolding claims_of
  claims_of-ok (err e) h = ground arith
  claims_of-ok (ok (found, true)) h = ground (arith, eq_iff found.agent_name "")
  claims_of-ok (ok (found, false)) h = ground arith

  admit-inr : (r : Result AgentClaims) → admit rt libs r ≡ inr claims → r ≡ ok claims
  unfolding admit
  admit-inr (err e) h = ground arith
  admit-inr (ok found) h = ground arith

  with_key-inr :
      (r : Result String) (token : String)
      → with_key rt libs r token ≡ inr claims
      → (key : String) × (r ≡ ok key) × IsVerified token key
  unfolding with_key validate_agent_jwt
  with_key-inr (err e) token h = ground arith
  with_key-inr (ok key) token h =
      let parsed = libs.parse_with_claims token key in
      (key, refl, claims_of-ok parsed (admit-inr (claims_of rt libs parsed) h))

  active : (a : Agent) → is_revoked a ≡ false → a.revoked_at ≡ none
  unfolding is_revoked
  active a h = ground arith

  not_found-refused : (kind : ErrorKind) → inl (not_found rt libs kind) ≢ inr claims
  not_found-refused kind h = ground arith

  with_agent-inr :
      (r : Result Agent) (token : String)
      → with_agent rt libs r token ≡ inr claims
      → (a : Agent) × (r ≡ ok a) × IsCredential token a
  unfolding with_agent
  with_agent-inr (err e) token h = ground arith
  with_agent-inr (ok a) token h = elim (Bool-cases (is_revoked a)) [
    | inl revoked ↦ ground arith
    | inr not_revoked ↦
        let (key, has_key, verified) =
          with_key-inr (parse_public_key_pem rt libs a.public_key_pem) token (ground arith) in
        (
          a,
          refl,
          record {
            is_active = active a not_revoked;
            key = key;
            has_key = has_key;
            is_verified = verified;
          },
        )
  ]

  agent_or_missing-ok :
      (o : Option Agent) (name : String) (a : Agent)
      → agent_or_missing rt o name ≡ ok a
      → o ≡ some a
  unfolding agent_or_missing
  agent_or_missing-ok none name a h = ground arith
  agent_or_missing-ok (some b) name a h = ground arith

  get_agent-ok :
      (fault : Option GoError) (name : String) (a : Agent)
      → get_agent rt fault name s ≡ ok a
      → find_agent s.agents name ≡ some a
  unfolding get_agent
  get_agent-ok (some e) name a h = ground arith
  get_agent-ok none name a h = agent_or_missing-ok (find_agent s.agents name) name a h

  with_name-inr :
      (r : Result String) (token : String) (fault : Option GoError)
      → with_name rt libs r token fault s ≡ inr claims
      → (name : String) × (a : Agent) × (r ≡ ok name)
        × (name ≢ "")
        × (find_agent s.agents name ≡ some a)
        × IsCredential token a
  unfolding with_name
  with_name-inr (err e) token fault h = ground arith
  with_name-inr (ok name) token fault h = elim (Bool-cases (name == "")) [
    | inl e ↦ ground arith
    | inr named ↦
        let (a, found, credential) =
          with_agent-inr (get_agent rt fault name s) token (ground arith) in
        (name, a, refl, ground (arith, eq_iff name ""), get_agent-ok fault name a found, credential)
  ]

  with_token-inr :
      (auth : String) (r : Result String) (fault : Option GoError)
      → bearer_token rt libs auth ≡ r
      → with_token rt libs r fault s ≡ inr claims
      → IsAuthentic auth
  unfolding with_token
  with_token-inr auth (err e) fault t h = ground arith
  with_token-inr auth (ok token) fault t h =
      let (name, a, has_name, named, found, credential) =
        with_name-inr (unverified_agent_claim rt libs token) token fault h in
      record {
        token = token;
        has_token = t;
        name = name;
        has_name = has_name;
        is_named = named;
        agent = a;
        is_registered = found;
        credential = credential;
      }

  -- The middleware admits a request only with a bearer token that names a registered agent, which is
  -- not revoked, and whose stored key verifies the token; the claims are those of the verified token.
  pub auth_middleware-IsAuthentic :
      (auth : String) (fault : Option GoError)
      → auth_middleware rt libs auth fault s ≡ inr claims
      → IsAuthentic auth
  unfolding auth_middleware
  auth_middleware-IsAuthentic auth fault h =
      with_token-inr auth (bearer_token rt libs auth) fault refl h

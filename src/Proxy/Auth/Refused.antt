-- ===== src/Proxy/Auth/Refused.antt =====
-- A refusal of the middleware never lets the request through.
use truebearing.Base.{String, ◌≢◌, inl, Option, arith}
use truebearing.Go.{Runtime, GoError, Result, ok, err}
use truebearing.Proxy.Auth.{
  admit, AgentClaims, auth_middleware, AuthLibraries, bearer_token, parse_public_key_pem,
  unverified_agent_claim, validate_agent_jwt, with_agent, with_key, with_name, with_token,
}
use truebearing.Proxy.Response.{forwarded}
use truebearing.Store.Agents.{get_agent}
use truebearing.Store.Rows.{Store, Agent}

module _ (rt : Runtime) (libs : AuthLibraries) (s : Store) where
  admit-refused : (r : Result AgentClaims) → admit rt libs r ≢ inl forwarded
  unfolding admit
  admit-refused (err e) h = ground arith
  admit-refused (ok claims) h = ground arith

  with_key-refused : (r : Result String) (token : String) → with_key rt libs r token ≢ inl forwarded
  unfolding with_key
  with_key-refused (err e) token h = ground arith
  with_key-refused (ok key) token h = admit-refused (validate_agent_jwt rt libs token key) h

  with_agent-refused :
      (r : Result Agent) (token : String) → with_agent rt libs r token ≢ inl forwarded
  unfolding with_agent
  with_agent-refused (err e) token h = ground arith
  with_agent-refused (ok a) token h =
      ground (arith, with_key-refused (parse_public_key_pem rt libs a.public_key_pem) token)

  with_name-refused :
      (r : Result String) (token : String) (fault : Option GoError)
      → with_name rt libs r token fault s ≢ inl forwarded
  unfolding with_name
  with_name-refused (err e) token fault h = ground arith
  with_name-refused (ok name) token fault h =
      ground (arith, with_agent-refused (get_agent rt fault name s) token)

  with_token-refused :
      (r : Result String) (fault : Option GoError) → with_token rt libs r fault s ≢ inl forwarded
  unfolding with_token
  with_token-refused (err e) fault h = ground arith
  with_token-refused (ok token) fault h =
      with_name-refused (unverified_agent_claim rt libs token) token fault h

  pub auth_middleware-refused :
      (auth : String) (fault : Option GoError)
      → auth_middleware rt libs auth fault s ≢ inl forwarded
  unfolding auth_middleware
  auth_middleware-refused auth fault h = with_token-refused (bearer_token rt libs auth) fault h

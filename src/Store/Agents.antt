-- ===== src/Store/Agents.antt =====
-- internal/store/agents.go: the registered agents.
use truebearing.Base.{
  ℤ, String, Bool, true, false, not, Option, none, some, List, [], ◌∷◌, ◌++◌, ◌==◌, if◌then◌else◌,
  keep, any,
}
use truebearing.Go.{Runtime, GoError, Result, ok, err, errorf, wrapf}
use truebearing.Store.Rows.{Store, Agent, sql_no_rows}

abbrev pub has_name : String → Agent → Bool
has_name name a = a.name == name

unfoldable pub find_agent : List Agent → String → Option Agent
find_agent [] name = none
find_agent (a ∷ rows) name =
    let rest = find_agent rows name in if has_name name a then some a else rest

-- `a.RevokedAt != nil`
unfoldable pub is_revoked : Agent → Bool
is_revoked a = elim a.revoked_at [ none ↦ false | some t ↦ true ]

unfoldable pub revoke_rows : ℤ → String → List Agent → List Agent
revoke_rows now name [] = []
revoke_rows now name (a ∷ rows) =
    (if has_name name a then record a { revoked_at = some now } else a) ∷ revoke_rows now name rows

module _ (rt : Runtime) where
  decoded : Result (List String) → Agent → Result (List String)
  decoded (err e) a =
      err (wrapf ("decoding allowed_tools_json for agent " ∷ rt.quote a.name ∷ ": " ∷ []) e)
  decoded (ok tools) a = ok tools

  unfoldable pub allowed_tools : Agent → Result (List String)
  unfolding decoded
  allowed_tools a = decoded (rt.decode_tools a.allowed_tools_json) a

  -- INSERT OR REPLACE removes the row of the name, and the new row is not revoked.
  unfoldable pub upsert_agent : Option GoError → Agent → Store → Result (Unit {0}) × Store
  upsert_agent (some e) a s = (err (wrapf ("upserting agent " ∷ rt.quote a.name ∷ ": " ∷ []) e), s)
  upsert_agent none a s = (
    ok tt,
    record s {
      agents = keep (λ b. not (has_name a.name b)) s.agents ++ record a { revoked_at = none } ∷ [];
    },
  )

  unfoldable pub revoke_agent : Option GoError → ℤ → String → Store → Result (Unit {0}) × Store
  revoke_agent (some e) now name s =
      (err (wrapf ("revoking agent " ∷ rt.quote name ∷ ": " ∷ []) e), s)
  revoke_agent none now name s =
      if any (has_name name) s.agents
      then (ok tt, record s { agents = revoke_rows now name s.agents })
      else (err (errorf ("agent " ∷ rt.quote name ∷ " not found" ∷ [])), s)

  unfoldable pub agent_or_missing : Option Agent → String → Result Agent
  agent_or_missing none name =
      err (wrapf ("looking up agent " ∷ rt.quote name ∷ ": " ∷ []) sql_no_rows)
  agent_or_missing (some a) name = ok a

  unfoldable pub get_agent : Option GoError → String → Store → Result Agent
  unfolding agent_or_missing
  get_agent (some e) name s = err (wrapf ("looking up agent " ∷ rt.quote name ∷ ": " ∷ []) e)
  get_agent none name s = agent_or_missing (find_agent s.agents name) name

-- ===== src/Store/Sessions.antt =====
-- internal/store/sessions.go: the sessions table.
pub mod Kept
use truebearing.Base.{
  ℤ, pos, ◌+ℤ◌, String, Bool, true, false, not, Option, none, some, List, [], ◌∷◌, ◌++◌, ◌==◌,
  if◌then◌else◌, keep, any,
}
use truebearing.Go.{Runtime, GoError, Result, ok, err, text, wrapf, Float64, zero_float}
use truebearing.Session.{Session}
use truebearing.Store.Rows.{Store, SessionRow, sql_no_rows}

abbrev pub has_id : String → SessionRow → Bool
has_id id r = r.id == id

unfoldable pub find_row : List SessionRow → String → Option SessionRow
find_row [] id = none
find_row (r ∷ rows) id = let rest = find_row rows id in if has_id id r then some r else rest

-- `UPDATE sessions SET … WHERE id = ?`
unfoldable pub update_row : (SessionRow → SessionRow) → String → List SessionRow → List SessionRow
update_row f id [] = []
update_row f id (r ∷ rows) = (if has_id id r then f r else r) ∷ update_row f id rows

to_session : SessionRow → Session
to_session r = record {
  id = r.id;
  agent_name = r.agent_name;
  policy_fingerprint = r.policy_fingerprint;
  tainted = r.tainted;
  tool_call_count = r.tool_call_count;
  estimated_cost_usd = r.estimated_cost_usd;
  terminated = r.terminated;
}

module _ (rt : Runtime) where
  -- `duplicate` is the driver's error for a primary key that is taken.
  unfoldable pub create_session :
      Option GoError → GoError → ℤ → String → String → String → Store → Result (Unit {0}) × Store
  create_session (some e) duplicate now id agent_name policy_fingerprint s =
      (err (wrapf ("creating session " ∷ rt.quote id ∷ ": " ∷ []) e), s)
  create_session none duplicate now id agent_name policy_fingerprint s =
      let row : SessionRow = record {
        id = id;
        agent_name = agent_name;
        policy_fingerprint = policy_fingerprint;
        tainted = false;
        tool_call_count = pos 0;
        estimated_cost_usd = zero_float;
        terminated = false;
        created_at = now;
        last_seen_at = now;
      } in
      if any (has_id id) s.sessions
      then (err (wrapf ("creating session " ∷ rt.quote id ∷ ": " ∷ []) duplicate), s)
      else (ok tt, record s { sessions = s.sessions ++ row ∷ [] })

  unfoldable pub look_up : Option SessionRow → String → Result Session
  unfolding to_session
  look_up none id = err (wrapf ("looking up session " ∷ rt.quote id ∷ ": " ∷ []) sql_no_rows)
  look_up (some r) id = ok (to_session r)

  unfoldable pub get_session : Option GoError → String → Store → Result Session
  unfolding look_up
  get_session (some e) id s = err (wrapf ("looking up session " ∷ rt.quote id ∷ ": " ∷ []) e)
  get_session none id s = look_up (find_row s.sessions id) id

  -- An UPDATE of one session, and its test of the rows that it affected.
  unfoldable pub update_session :
      Option GoError
      → String
      → (SessionRow → SessionRow)
      → String
      → Store
      → Result (Unit {0}) × Store
  update_session (some e) message f id s = (err (wrapf (message ∷ []) e), s)
  update_session none message f id s =
      if any (has_id id) s.sessions
      then (ok tt, record s { sessions = update_row f id s.sessions })
      else (err (wrapf (message ∷ []) sql_no_rows), s)

  unfoldable pub update_session_taint :
      Option GoError → ℤ → String → Bool → Store → Result (Unit {0}) × Store
  unfolding update_session
  update_session_taint fault now id tainted s =
      let message = text ("updating taint for session " ∷ rt.quote id ∷ ": " ∷ []) in
      update_session fault message (λ r. record r { tainted = tainted; last_seen_at = now }) id s

  unfoldable pub increment_session_counters :
      Option GoError → ℤ → String → Float64 → Store → Result (Unit {0}) × Store
  unfolding update_session
  increment_session_counters fault now id cost_delta s =
      let message = text ("incrementing counters for session " ∷ rt.quote id ∷ ": " ∷ []) in
      update_session fault message
        (λ r. record r {
          tool_call_count = r.tool_call_count +ℤ pos 1;
          estimated_cost_usd = rt.float_add r.estimated_cost_usd cost_delta;
          last_seen_at = now;
        })
        id s

  unfoldable pub terminate_session : Option GoError → ℤ → String → Store → Result (Unit {0}) × Store
  unfolding update_session
  terminate_session fault now id s =
      let message = text ("terminating session " ∷ rt.quote id ∷ ": " ∷ []) in
      update_session fault message (λ r. record r { terminated = true; last_seen_at = now }) id s

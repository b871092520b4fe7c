-- ===== src/Store/Sessions/Kept.antt =====
-- The operations of internal/store/sessions.go touch no event and no audit record.
use truebearing.Base.{ℤ, String, ◌≡◌, Bool, Option, arith}
use truebearing.Go.{Runtime, Float64, GoError}
use truebearing.Store.Rows.{Store, SessionRow}
use truebearing.Store.Sessions.{
  create_session, increment_session_counters, update_session, update_session_taint,
}

-- Two stores with the same events and audit records.
abbrev pub IsSameLog : Store → Store → Type 0
IsSameLog s s' = (s'.session_events ≡ s.session_events) × (s'.audit_log ≡ s.audit_log)

module _ (rt : Runtime) where
  pub update_session-IsSameLog :
      (fault : Option GoError) (message : String) (f : SessionRow → SessionRow) (id : String)
      (s : Store)
      → IsSameLog s (update_session rt fault message f id s).1
  unfolding update_session
  update_session-IsSameLog fault message f id s = ground arith

  pub update_session_taint-IsSameLog :
      (fault : Option GoError) (now : ℤ) (id : String) (tainted : Bool) (s : Store)
      → IsSameLog s (update_session_taint rt fault now id tainted s).1
  unfolding update_session_taint
  update_session_taint-IsSameLog fault now id tainted s = update_session-IsSameLog fault _ _ id s

  pub increment_session_counters-IsSameLog :
      (fault : Option GoError) (now : ℤ) (id : String) (cost : Float64) (s : Store)
      → IsSameLog s (increment_session_counters rt fault now id cost s).1
  unfolding increment_session_counters
  increment_session_counters-IsSameLog fault now id cost s = update_session-IsSameLog fault _ _ id s

  pub create_session-IsSameLog :
      (fault : Option GoError) (duplicate : GoError) (now : ℤ) (id agent_name fingerprint : String)
      (s : Store)
      → IsSameLog s (create_session rt fault duplicate now id agent_name fingerprint s).1
  unfolding create_session
  create_session-IsSameLog fault duplicate now id agent_name fingerprint s = ground arith

-- ===== src/Store/Events.antt =====
-- internal/store/events.go: the event log of a session.
pub mod Log
use truebearing.Base.{
  ℕ, suc, ◌+◌, ℤ, pos, eqb_ℤ, leb_ℤ, String, Bool, true, false, ◌&&◌, Option, none, some, List, [],
  ◌∷◌, ◌++◌, ◌==◌, if◌then◌else◌, keep, any, length,
}
use truebearing.Base.Sort.{order_by, max_key}
use truebearing.Go.{Runtime, GoError, Result, ok, err, text, wrapf}
use truebearing.Engine.Types.{was_executed}
use truebearing.Store.Rows.{Store, SessionRow, SessionEvent}

-- The statements of the transaction that can fail, and `commit`.
pub data AppendStage : Type 0 where
  begin select_max insert commit : AppendStage

abbrev pub of_session : String → SessionEvent → Bool
of_session id ev = ev.session_id == id

-- The foreign key of `session_events`.
unfoldable pub has_session : String → List SessionRow → Bool
has_session id rows = any (λ r. r.id == id) rows

-- `if event.RecordedAt == 0 { event.RecordedAt = now }`
abbrev pub stamp : ℤ → ℤ → ℤ
stamp now recorded_at = if eqb_ℤ recorded_at (pos 0) then now else recorded_at

module _ (rt : Runtime) where
  append_failed : AppendStage → String → GoError → GoError
  append_failed begin id e =
      wrapf ("starting transaction for session " ∷ rt.quote id ∷ " event: " ∷ []) e
  append_failed select_max id e =
      wrapf ("computing next seq for session " ∷ rt.quote id ∷ ": " ∷ []) e
  append_failed insert id e = wrapf ("inserting event for session " ∷ rt.quote id ∷ ": " ∷ []) e
  append_failed commit id e = wrapf ("committing event for session " ∷ rt.quote id ∷ ": " ∷ []) e

  -- `refused` is the driver's error for a row without its session. The result is the assigned `seq`.
  unfoldable pub append_event :
      Option (AppendStage × GoError) → GoError → ℤ → SessionEvent → Store → Result ℕ × Store
  unfolding append_failed
  append_event (some (stage, e)) refused now event s =
      (err (append_failed stage event.session_id e), s)
  append_event none refused now event s =
      let next_seq =
        max_key (λ ev. ev.seq) (keep (of_session event.session_id) s.session_events) + 1 in
      let row = record event { seq = next_seq; recorded_at = stamp now event.recorded_at } in
      if has_session event.session_id s.sessions
      then (ok next_seq, record s { session_events = s.session_events ++ row ∷ [] })
      else (err (append_failed insert event.session_id refused), s)

  unfoldable pub get_session_events : Option GoError → String → Store → Result (List SessionEvent)
  get_session_events (some e) id s =
      err (wrapf ("querying events for session " ∷ rt.quote id ∷ ": " ∷ []) e)
  get_session_events none id s =
      ok (order_by (λ ev. ev.seq) (keep (of_session id) s.session_events))

  -- the WHERE clause of the rolling window
  abbrev pub in_window : String → String → ℤ → SessionEvent → Bool
  in_window id tool since ev =
      ev.session_id == id
      && (ev.tool_name == tool && (was_executed ev.decision && leb_ℤ since ev.recorded_at))

  -- `since` is the nanosecond count that `since.UnixNano()` gives.
  unfoldable pub count_session_events_since :
      Option GoError → String → String → ℤ → Store → Result ℕ
  count_session_events_since (some e) id tool since s = err (
      wrapf
        ("counting rate-limit events for session "
          ∷ rt.quote id
          ∷ " tool "
          ∷ rt.quote tool
          ∷ ": "
          ∷ [])
        e)
  count_session_events_since none id tool since s =
      ok (length (keep (in_window id tool since) s.session_events))

  unfoldable pub count_session_events : Option GoError → String → Store → Result ℕ
  count_session_events (some e) id s =
      err (wrapf ("counting events for session " ∷ rt.quote id ∷ ": " ∷ []) e)
  count_session_events none id s = ok (length (keep (of_session id) s.session_events))

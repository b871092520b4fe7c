-- ===== src/Proxy/Govern/Terminated.antt =====
-- A terminated session stays shut.
use truebearing.Base.{◌≡◌, true, arith, ap, ◌∙◌}
use truebearing.Go.{Result, ok, err}
use truebearing.Proxy.Govern.{
  get_or_create_session, govern, in_session, load_session, resolve_policy, trace_entry_of,
  with_session,
}
use truebearing.Proxy.Handler.{Incoming, record_trace, write_trace_entry}
use truebearing.Proxy.Response.{gone}
use truebearing.Proxy.State.{Libraries, Proxy, Conditions, TraceEntry}
use truebearing.Session.{Session}
use truebearing.Store.Rows.{Store}
use truebearing.Store.Sessions.{get_session}

module _ (libs : Libraries) (now : Conditions) (inc : Incoming) where
  trace-store :
      (entry : TraceEntry) (p : Proxy) → (write_trace_entry libs now entry p).store ≡ p.store
  unfolding write_trace_entry record_trace
  trace-store entry p = ground arith

  session_terminated :
      (r : Result Session) (p : Proxy) {sess : Session}
      → r ≡ ok sess
      → sess.terminated ≡ true
      → ((with_session libs now (load_session libs now r inc p.live_pol p.store) inc p).response
          ≡ gone inc.session_id)
        × ((with_session libs now
              (load_session libs now r inc p.live_pol p.store)
              inc
              p).state.store
            ≡ p.store)
  unfolding with_session load_session in_session resolve_policy
  session_terminated (ok found) p h t = ground arith
  session_terminated (err e) p h t = ground arith

  -- A call of a session that the store marks as terminated is answered with 410 and changes nothing in
  -- the store: no event, no audit record, no counter.
  pub govern-terminated :
      (p : Proxy) {sess : Session}
      → get_session libs.rt now.session_fault inc.session_id p.store ≡ ok sess
      → sess.terminated ≡ true
      → ((govern libs now inc p).response ≡ gone inc.session_id)
        × ((govern libs now inc p).state.store ≡ p.store)
  unfolding govern get_or_create_session
  govern-terminated p h t =
      let p' = write_trace_entry libs now (trace_entry_of libs now inc) p in
      let same = trace-store (trace_entry_of libs now inc) p in
      let shut =
        session_terminated (get_session libs.rt now.session_fault inc.session_id p'.store) p'
          (ap (λ (s : Store). get_session libs.rt now.session_fault inc.session_id s) same ∙ h) t in
      (shut.0, shut.1 ∙ same)

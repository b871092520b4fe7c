-- ===== src/Proxy/Govern/Mediation.antt =====
-- Which calls reach the pipeline, and what a forwarded call went through.
use mathlib.Core.Path.{subst}
use mathlib.Core.Sum.{inr-injective}
use truebearing.Base.{
  ◌≡◌, ◌≢◌, ◌⊎◌, inl, inr, refl, Bool, true, false, Option, none, some, List, arith, if◌then◌else◌,
  ap, ◌∙◌, Bool-cases,
}
use truebearing.Go.{GoError, Result, ok, err, ErrorKind, no_rows}
use truebearing.Policy.{Policy}
use truebearing.Proxy.Govern.{
  created, decide, get_or_create_session, govern, in_session, load_session, missing, or_live,
  resolve_policy, trace_entry_of, with_session,
}
use truebearing.Proxy.Govern.Recording.{run_pipeline-forwarded}
use truebearing.Proxy.Handler.{Incoming, new_session, record_trace, write_trace_entry}
use truebearing.Proxy.Handler.Enforced.{IsPassing}
use truebearing.Proxy.PolicyCache
use truebearing.Proxy.Response.{Response, forwarded}
use truebearing.Proxy.State.{Libraries, Proxy, Conditions, TraceEntry}
use truebearing.Session.{Session}
use truebearing.Store.Rows.{Store}
use truebearing.Store.Sessions.{create_session, get_session}
use truebearing.Store.Sessions.Kept.{create_session-IsSameLog}

module _ (libs : Libraries) (now : Conditions) (inc : Incoming) where
  -- The session of a call: the stored one, or a fresh one bound to the live policy.
  pub data IsSessionOf (p : Proxy) : Session → Type 0 where
    stored :
        (sess : Session)
        → get_session libs.rt now.session_fault inc.session_id p.store ≡ ok sess
        → IsSessionOf p sess
    fresh :
        (e : GoError)
        → get_session libs.rt now.session_fault inc.session_id p.store ≡ err e
        → e.kind ≡ no_rows
        → IsSessionOf p (new_session inc.session_id inc.claims.agent_name p.live_pol.fingerprint)

  -- What a forwarded call has been through.
  pub record IsGoverned (p : Proxy) : Type 0 where
    pub sess : Session
    pub state : Proxy
    pub session_of : IsSessionOf p sess
    pub is_live : sess.terminated ≡ false
    pub pol : Policy
    pub policy_of : pol ≡ or_live (PolicyCache.get sess.policy_fingerprint p.pol_cache).0 p.live_pol
    pub events_of : state.store.session_events ≡ p.store.session_events
    pub passing : IsPassing (decide libs now inc sess pol state).0.action

  created-session :
      (r : Result (Unit {0}) × Store) (live : Policy) (sess : Session)
      → (created libs now r inc live).0 ≡ inr sess
      → new_session inc.session_id inc.claims.agent_name live.fingerprint ≡ sess
  unfolding created
  created-session (ok t, s) live sess h = ground arith
  created-session (err e, s) live sess h = ground arith

  created-store :
      (r : Result (Unit {0}) × Store) (live : Policy) → (created libs now r inc live).1 ≡ r.1
  unfolding created
  created-store (ok t, s) live = refl
  created-store (err e, s) live = refl

  missing-session :
      (kind : ErrorKind) (live : Policy) (s : Store) (sess : Session)
      → (missing libs now kind inc live s).0 ≡ inr sess
      → (kind ≡ no_rows)
        × (new_session inc.session_id inc.claims.agent_name live.fingerprint ≡ sess)
        × ((missing libs now kind inc live s).1.session_events ≡ s.session_events)
  unfolding missing
  missing-session no_rows live s sess h =
      let r =
        create_session libs.rt now.create_fault now.duplicate now.now inc.session_id
          inc.claims.agent_name live.fingerprint s in
      (
        refl,
        created-session r live sess h,
        ap (λ (t : Store). t.session_events) (created-store r live)
            ∙ (create_session-IsSameLog libs.rt now.create_fault now.duplicate now.now
                inc.session_id inc.claims.agent_name live.fingerprint s).0,
      )
  missing-session ErrorKind.plain live s sess h = ground arith
  missing-session ErrorKind.parent_agent_not_found live s sess h = ground arith

  load_session-IsSessionOf :
      (r : Result Session) (p : Proxy) (sess : Session)
      → get_session libs.rt now.session_fault inc.session_id p.store ≡ r
      → (load_session libs now r inc p.live_pol p.store).0 ≡ inr sess
      → IsSessionOf p sess
        × ((load_session libs now r inc p.live_pol p.store).1.session_events
            ≡ p.store.session_events)
  unfolding load_session
  load_session-IsSessionOf (ok found) p sess g h =
      (subst (IsSessionOf p) (inr-injective _ _ h) (stored found g), refl)
  load_session-IsSessionOf (err e) p sess g h =
      let (missed, made, kept) = missing-session e.kind p.live_pol p.store sess h in
      (subst (IsSessionOf p) made (fresh e g missed), kept)

  in_session-forwarded :
      (sess : Session) (resolved : Policy × Proxy)
      → (in_session libs now inc sess resolved).response ≡ forwarded
      → (sess.terminated ≡ false)
        × IsPassing (decide libs now inc sess resolved.0 resolved.1).0.action
  unfolding in_session
  in_session-forwarded sess (pol, p) h = elim (Bool-cases sess.terminated) [
    | inl t ↦ ground arith
    | inr f ↦ (f, run_pipeline-forwarded libs now inc pol sess p (ground arith))
  ]

  with_session-IsGoverned :
      (r : (Response ⊎ Session) × Store) (p : Proxy)
      → ((sess : Session)
          → r.0 ≡ inr sess
          → IsSessionOf p sess × (r.1.session_events ≡ p.store.session_events))
      → (with_session libs now r inc p).response ≡ forwarded
      → IsGoverned p ⊎ ((response : Response) × (r.0 ≡ inl response) × (response ≡ forwarded))
  unfolding with_session resolve_policy
  with_session-IsGoverned (inl response, s) p loads h = inr (response, refl, h)
  with_session-IsGoverned (inr sess, s) p loads h =
      let p' = record p { store = s } in
      let found = PolicyCache.get sess.policy_fingerprint p.pol_cache in
      let passed =
        in_session-forwarded sess (or_live found.0 p.live_pol, record p' { pol_cache = found.1 })
          h in
      inl (record {
        sess = sess;
        state = record p' { pol_cache = found.1 };
        session_of = (loads sess refl).0;
        is_live = passed.0;
        pol = or_live found.0 p.live_pol;
        policy_of = refl;
        events_of = (loads sess refl).1;
        passing = passed.1;
      })

  created-refused :
      (r : Result (Unit {0}) × Store) (live : Policy) (response : Response)
      → (created libs now r inc live).0 ≡ inl response
      → response ≢ forwarded
  unfolding created
  created-refused (ok t, s) live response h e = ground arith
  created-refused (err e, s) live response h e' = ground arith

  missing-refused :
      (kind : ErrorKind) (live : Policy) (s : Store) (response : Response)
      → (missing libs now kind inc live s).0 ≡ inl response
      → response ≢ forwarded
  unfolding missing
  missing-refused no_rows live s response h e =
      created-refused
        (create_session libs.rt now.create_fault now.duplicate now.now inc.session_id
          inc.claims.agent_name live.fingerprint s)
        live response h e
  missing-refused ErrorKind.plain live s response h e = ground arith
  missing-refused ErrorKind.parent_agent_not_found live s response h e = ground arith

  load_session-refused :
      (r : Result Session) (live : Policy) (s : Store) (response : Response)
      → (load_session libs now r inc live s).0 ≡ inl response
      → response ≢ forwarded
  unfolding load_session
  load_session-refused (ok found) live s response h e' = ground arith
  load_session-refused (err e) live s response h e' = missing-refused e.kind live s response h e'

  with_trace :
      (p : Proxy) (entry : TraceEntry)
      → write_trace_entry libs now entry p
        ≡ record p { trace = (write_trace_entry libs now entry p).trace }
  unfolding write_trace_entry record_trace
  with_trace p entry = traced p.tracing now.trace_fault
    where
      traced :
          (tracing : Bool) (fault : Option GoError)
          → (if tracing then record_trace libs now fault entry p else p) ≡ record p {
            trace = (if tracing then record_trace libs now fault entry p else p).trace;
          }
      traced true none = refl
      traced true (some e) = refl
      traced false fault = refl

  before_trace :
      (p : Proxy) (entries : List TraceEntry)
      → IsGoverned (record p { trace = entries })
      → IsGoverned p
  before_trace p entries g = record {
    sess = g.sess;
    state = g.state;
    session_of = untraced g.session_of;
    is_live = g.is_live;
    pol = g.pol;
    policy_of = g.policy_of;
    events_of = g.events_of;
    passing = g.passing;
  }
    where
      untraced :
          {sess : Session} → IsSessionOf (record p { trace = entries }) sess → IsSessionOf p sess
      untraced (stored sess h) = stored sess h
      untraced (fresh e h k) = fresh e h k

  -- A governed call is forwarded only if its session, loaded or fresh, is not terminated, its policy is
  -- the one that the session is bound to where it is cached and the live one elsewhere, and the pipeline
  -- decided Allow or ShadowDeny on the events before the call.
  pub govern-IsGoverned : (p : Proxy) → (govern libs now inc p).response ≡ forwarded → IsGoverned p
  unfolding govern get_or_create_session
  govern-IsGoverned p h =
      let p' = write_trace_entry libs now (trace_entry_of libs now inc) p in
      let found = get_session libs.rt now.session_fault inc.session_id p'.store in
      let r = load_session libs now found inc p'.live_pol p'.store in
      elim (with_session-IsGoverned r p' (λ sess. load_session-IsSessionOf found p' sess refl) h) [
        | inl g ↦
            before_trace p p'.trace
              (subst IsGoverned (with_trace p (trace_entry_of libs now inc)) g)
        | inr (response, refused, e) ↦
            ground (arith, load_session-refused found p'.live_pol p'.store response refused e)
      ]

-- ===== src/Store/Events/Log.antt =====
-- The event log keeps each session's events numbered 1, 2, 3 and so on in the order of arrival.
use mathlib.Core.List.{append-nil}
use mathlib.Core.Path.{subst}
use truebearing.Base.{
  ℕ, ◌+◌, ℤ, String, ◌≡◌, ◌∙◌, ap, sym, refl, ◌⊎◌, inl, inr, true, Option, none, some, List, [],
  ◌∷◌, ◌++◌, ◌==◌, arith, eq_iff, if◌then◌else◌, keep, keep-append, length, Bool-cases,
}
use truebearing.Base.Sort.{
  max_key, IsNumbered, order_by-numbered, max_key-numbered, IsNumbered-append,
}
use truebearing.Go.{Runtime, GoError, Result, ok, err}
use truebearing.Store.Rows.{Store, SessionEvent}
use truebearing.Store.Events.{
  AppendStage, of_session, has_session, stamp, append_event, get_session_events,
}

abbrev pub events_of : String → Store → List SessionEvent
events_of id s = keep (of_session id) s.session_events

-- The invariant of `session_events`.
abbrev pub IsLogged : Store → Type 0
IsLogged s = (id : String) → IsNumbered (λ ev. ev.seq) 0 (events_of id s)

-- The row that an append stores.
abbrev pub stored : ℤ → SessionEvent → Store → SessionEvent
stored now event s = record event {
  seq = max_key (λ ev. ev.seq) (events_of event.session_id s) + 1;
  recorded_at = stamp now event.recorded_at;
}

-- The number of the next event of a session, and its row.
abbrev pub next_seq : SessionEvent → Store → ℕ
next_seq event s = length (events_of event.session_id s) + 1

abbrev pub next_row : ℤ → SessionEvent → Store → SessionEvent
next_row now event s = record event {
  seq = next_seq event s;
  recorded_at = stamp now event.recorded_at;
}

-- What an append returns where the last number is `n`.
abbrev after_insert : Store → ℤ → SessionEvent → ℕ → Result ℕ × Store
after_insert s now event n = (
  ok (n + 1),
  record s {
    session_events =
        s.session_events
        ++ record event { seq = n + 1; recorded_at = stamp now event.recorded_at } ∷ [];
  },
)

module _ (rt : Runtime) where
  -- In a store that keeps the invariant, the log is read in the order of arrival.
  pub get-events_of :
      (id : String) (s : Store) → IsLogged s → get_session_events rt none id s ≡ ok (events_of id s)
  unfolding get_session_events
  get-events_of id s w = ap ok (order_by-numbered (λ ev. ev.seq) 0 (events_of id s) (w id))

  append_cases :
      (fault : Option (AppendStage × GoError)) (refused : GoError) (now : ℤ) (event : SessionEvent)
      (s : Store)
      → ((append_event rt fault refused now event s).1 ≡ s)
        ⊎ ((append_event rt fault refused now event s).1
            ≡ record s { session_events = s.session_events ++ stored now event s ∷ [] })
  unfolding append_event
  append_cases (some (stage, e)) refused now event s = inl refl
  append_cases none refused now event s =
      elim (Bool-cases (has_session event.session_id s.sessions)) [
        | inl h ↦ inr (rw h)
        | inr h ↦ inl (rw h)
      ]

  -- The events of a session after a row is added: its own, with the row if it is the session's.
  events_of-append :
      (row : SessionEvent) (id : String) (s : Store)
      → events_of id (record s { session_events = s.session_events ++ row ∷ [] })
        ≡ (if row.session_id == id then events_of id s ++ row ∷ [] else events_of id s)
  unfolding keep
  events_of-append row id s = elim (Bool-cases (row.session_id == id)) [
    | inl h ↦ rw (keep-append (of_session id) s.session_events (row ∷ []), h)
    | inr h ↦ rw (keep-append (of_session id) s.session_events (row ∷ []), h, append-nil)
  ]

  stored_seq :
      (now : ℤ) (event : SessionEvent) (s : Store)
      → IsLogged s
      → (stored now event s).seq ≡ length (events_of event.session_id s) + 1
  stored_seq now event s w =
      ap (λ (n : ℕ). n + 1)
        (max_key-numbered (λ ev. ev.seq) (events_of event.session_id s) (w event.session_id))

  numbered_after :
      (now : ℤ) (event : SessionEvent) (s : Store)
      → IsLogged s
      → IsLogged (record s { session_events = s.session_events ++ stored now event s ∷ [] })
  numbered_after now event s w id = elim (Bool-cases (event.session_id == id)) [
    | inl h ↦
        subst (IsNumbered (λ ev. ev.seq) 0)
          (sym (
            events_of-append (stored now event s) id s
            ∙ ap (λ b. if b then own else events_of id s) h))
          (IsNumbered-append (λ ev. ev.seq) 0 (events_of id s) (stored now event s) (w id)
            (omega (arith, stored_seq now event s w, same_session h)))
    | inr h ↦
        subst (IsNumbered (λ ev. ev.seq) 0)
          (sym (
            events_of-append (stored now event s) id s
            ∙ ap (λ b. if b then own else events_of id s) h))
          (w id)
  ]
    where
      own : List SessionEvent
      own = events_of id s ++ stored now event s ∷ []

      same_session :
          (event.session_id == id) ≡ true
          → length (events_of event.session_id s) ≡ length (events_of id s)
      same_session h = ap (λ j. length (events_of j s)) ((eq_iff event.session_id id).0 h)

  -- Appending keeps every session's events numbered 1, 2, 3 and so on, whether it succeeds or fails.
  pub append_event-IsLogged :
      (fault : Option (AppendStage × GoError)) (refused : GoError) (now : ℤ) (event : SessionEvent)
      (s : Store)
      → IsLogged s
      → IsLogged (append_event rt fault refused now event s).1
  append_event-IsLogged fault refused now event s w =
      elim (append_cases fault refused now event s) [
        | inl e ↦ subst IsLogged (sym e) w
        | inr e ↦ subst IsLogged (sym e) (numbered_after now event s w)
      ]

  append_ok :
      (refused : GoError) (now : ℤ) (event : SessionEvent) (s : Store)
      → IsLogged s
      → has_session event.session_id s.sessions ≡ true
      → append_event rt none refused now event s ≡ (
        ok (next_seq event s),
        record s { session_events = s.session_events ++ next_row now event s ∷ [] },
      )
  unfolding append_event
  append_ok refused now event s w h = rw h (
      ap (after_insert s now event)
        (max_key-numbered (λ ev. ev.seq) (events_of event.session_id s) (w event.session_id)))

  -- A successful append returns the next number of its session, and adds one row with this number at
  -- the end of what `GetSessionEvents` returns for the session; all other sessions read as before.
  pub get-append_event :
      (refused : GoError) (now : ℤ) (event : SessionEvent) (s : Store)
      → IsLogged s
      → has_session event.session_id s.sessions ≡ true
      → (id : String)
      → ((append_event rt none refused now event s).0 ≡ ok (next_seq event s))
        × (get_session_events rt none id (append_event rt none refused now event s).1 ≡ (
            if event.session_id == id
            then ok (events_of id s ++ next_row now event s ∷ [])
            else get_session_events rt none id s))
  get-append_event refused now event s w h id =
      let done = append_ok refused now event s w h in
      let s' = record s { session_events = s.session_events ++ next_row now event s ∷ [] } in
      let w' : IsLogged s' =
        subst IsLogged (ap (λ (r : Result ℕ × Store). r.1) done)
          (append_event-IsLogged none refused now event s w) in
      (
        ap (λ (r : Result ℕ × Store). r.0) done,
        ap (λ (r : Result ℕ × Store). get_session_events rt none id r.1) done
            ∙ get-events_of id s' w'
            ∙ ap ok (events_of-append (next_row now event s) id s)
            ∙ ground (arith, get-events_of id s w),
      )

  -- A successful append adds the stored row and nothing else, and returns its number.
  pub append_event-ok :
      (fault : Option (AppendStage × GoError)) (refused : GoError) (now : ℤ) (event : SessionEvent)
      (s : Store)
      → {seq : ℕ} → (append_event rt fault refused now event s).0 ≡ ok seq
      → (seq ≡ (stored now event s).seq)
        × ((append_event rt fault refused now event s).1
            ≡ record s { session_events = s.session_events ++ stored now event s ∷ [] })
  unfolding append_event
  append_event-ok fault refused now event s h = ground arith

  pub append_event-err :
      (fault : Option (AppendStage × GoError)) (refused : GoError) (now : ℤ) (event : SessionEvent)
      (s : Store)
      → {e : GoError} → (append_event rt fault refused now event s).0 ≡ err e
      → (append_event rt fault refused now event s).1 ≡ s
  unfolding append_event
  append_event-err fault refused now event s h = ground arith

  pub append_event-audit_log :
      (fault : Option (AppendStage × GoError)) (refused : GoError) (now : ℤ) (event : SessionEvent)
      (s : Store)
      → (append_event rt fault refused now event s).1.audit_log ≡ s.audit_log
  unfolding append_event
  append_event-audit_log fault refused now event s = ground arith

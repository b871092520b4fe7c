-- ===== src/Replay/Budgeted.antt =====
-- A replay stays within the budget of tool calls.
use mathlib.Core.Path.{subst}
use truebearing.Base.{
  ℕ, suc, ◌+◌, ◌^◌, ◌≤◌, ◌<◌, ℤ, pos, ◌+ℤ◌, int64, int64_id, String, ◌≡◌, inl, inr, refl, sym, ap,
  ◌∙◌, true, false, Option, none, some, List, [], ◌∷◌, ◌++◌, All, any, arith, eq_iff, length,
}
use truebearing.Engine.Pipeline.FirstFailure.{AllPass-of_allow, evaluate-session}
use truebearing.Engine.StoreBackend.{store_backend}
use truebearing.Engine.Types.{Action, action_string, allow, Decision}
use truebearing.Go.{err, Float64, GoError, ok, Result, Runtime}
use truebearing.Policy.{Policy}
use truebearing.Replay.{
  call_of, count_call, decide, entry_of, event_of, in_new_session, new_session, replay_records,
  replay_session, replay_stages, ReplayConditions, ReplayEntry, with_entry,
}
use truebearing.Session.{Session}
use truebearing.Store.Events.{append_event, has_session}
use truebearing.Store.Rows.{AuditRecord, SessionRow, Store}
use truebearing.Store.Sessions.{create_session, has_id}
use truebearing.Replay.Counts.{
  allowed, append_event-Succeeds, budget-passes, bump, bump_le, IsWithin, IsWithin-entry, Succeeds,
}

-- A result with an entry for each record, the allowed ones within the limit.
abbrev pub HasReplayed : ℕ → ℕ → ℕ → Result (List ReplayEntry) × Store → Type 0
HasReplayed n limit k (ok entries, st) = (length entries ≡ n) × IsWithin limit k entries
HasReplayed n limit k (err e, st) = ⊥

-- A result with an entry for each record, at most as many of them allowed as the limit says.
abbrev pub IsBudgeted : ℕ → ℕ → Result (List ReplayEntry) × Store → Type 0
IsBudgeted n limit (ok entries, st) = (length entries ≡ n) × (allowed entries ≤ limit)
IsBudgeted n limit (err e, st) = ⊥

HasReplayed-IsBudgeted :
    (n limit : ℕ) (r : Result (List ReplayEntry) × Store)
    → HasReplayed n limit 0 r
    → IsBudgeted n limit r
HasReplayed-IsBudgeted n limit (ok entries, st) h =
    (h.0, elim h.1 [ inl w ↦ omega arith | inr w ↦ omega arith ])
HasReplayed-IsBudgeted n limit (err e, st) h = h

with_entry-HasReplayed :
    (n limit k : ℕ) (a : Action) (entry : ReplayEntry) (r : Result (List ReplayEntry) × Store)
    → entry.new_decision ≡ action_string a
    → (a ≡ allow → k < limit)
    → HasReplayed n limit (bump a k) r
    → HasReplayed (suc n) limit k (with_entry entry r)
with_entry-HasReplayed n limit k a entry (ok entries, st) e h w =
    (omega (arith, w.0), IsWithin-entry limit k a entry entries e h w.1)
with_entry-HasReplayed n limit k a entry (err x, st) e h w = absurd w

has_session-append :
    (id : String) (rows : List SessionRow) (row : SessionRow)
    → row.id ≡ id
    → has_session id (rows ++ row ∷ []) ≡ true
unfolding has_session any
has_session-append id [] row e = ground (arith, eq_iff row.id id, e)
has_session-append id (x ∷ rows) row e = ground (arith, has_session-append id rows row e)

plus_one : (z : ℤ) (k : ℕ) → z ≡ pos k → k + 1 < 2 ^ 63 → int64 (z +ℤ pos 1) ≡ pos (k + 1)
unfolding ◌+ℤ◌
plus_one z k e b =
    ap (λ x. int64 (x +ℤ pos 1)) e
    ∙ ap int64 (ground arith)
    ∙ int64_id (pos (k + 1)) b (omega arith)

module _ (rt : Runtime) (cost_per_call : Float64) (now : ReplayConditions) (pol : Policy)
    (limit : ℕ) where
  count_call-count :
      (d : Decision) (sess : Session) (k : ℕ)
      → sess.tool_call_count ≡ pos k
      → k + 1 < 2 ^ 63
      → (count_call rt cost_per_call now d sess).tool_call_count ≡ pos (bump d.action k)
  unfolding count_call ◌+ℤ◌
  count_call-count d sess k e b = ground (arith, e, plus_one sess.tool_call_count k e b)

  decide-count :
      (rec : AuditRecord) (sess : Session) (st : Store) (k : ℕ)
      → sess.tool_call_count ≡ pos k
      → (decide rt cost_per_call now rec sess pol st).1.tool_call_count ≡ pos k
  decide-count rec sess st k e =
      elim (evaluate-session (call_of rec) sess pol
        (replay_stages rt cost_per_call now (store_backend rt now.read_faults st))) [
          | inl (a, q) ↦ ap (λ (s : Session). s.tool_call_count) q ∙ e
          | inr (n, q) ↦ ap (λ (s : Session). s.tool_call_count) q ∙ e
        ]

  decide-allow :
      (rec : AuditRecord) (sess : Session) (st : Store) (k : ℕ)
      → sess.tool_call_count ≡ pos k
      → pol.budget.max_tool_calls ≡ pos limit
      → 0 < limit
      → (decide rt cost_per_call now rec sess pol st).0.action ≡ allow
      → k < limit
  unfolding replay_stages
  decide-allow rec sess st k e m z a =
      budget-passes rt (call_of rec) sess pol k limit e m z
        (AllPass-of_allow (call_of rec) sess pol
          (replay_stages rt cost_per_call now (store_backend rt now.read_faults st)) a).1.0

  round :
      (r : Result ℕ) (rec : AuditRecord) (d : Decision) (rest : Result (List ReplayEntry) × Store)
      (st : Store) (n k : ℕ) (failed : GoError → GoError)
      → Succeeds r
      → (d.action ≡ allow → k < limit)
      → HasReplayed n limit (bump d.action k) rest
      → HasReplayed
          (suc n)
          limit
          k
          (elim r [ err e ↦ (err (failed e), st) | ok seq ↦ with_entry (entry_of rec d) rest ])
  round (ok seq) rec d rest st n k failed s h w =
      with_entry-HasReplayed n limit k d.action (entry_of rec d) rest refl h w
  round (err e) rec d rest st n k failed s h w = absurd s

  module _ (quiet : (rec : AuditRecord) → now.append_fault rec ≡ none)
      (m : pol.budget.max_tool_calls ≡ pos limit) (z : 0 < limit) where
    records-HasReplayed :
        (records : List AuditRecord) (id : String) (sess : Session) (st : Store) (k : ℕ)
        → All (λ (r : AuditRecord). r.session_id ≡ id) records
        → has_session id st.sessions ≡ true
        → sess.tool_call_count ≡ pos k
        → k + length records < 2 ^ 63
        → HasReplayed
            (length records)
            limit
            k
            (replay_records rt cost_per_call now records sess pol st)
    unfolding replay_records allowed
    records-HasReplayed [] id sess st k same h e b = (refl, inr refl)
    records-HasReplayed (rec ∷ records) id sess st k same h e b =
        let decided = decide rt cost_per_call now rec sess pol st in
        let appended =
          append_event rt (now.append_fault rec) now.refused now.now (event_of rec decided.0) st in
        let stored =
          append_event-Succeeds rt (now.append_fault rec) now.refused now.now
            (event_of rec decided.0) st (quiet rec)
            (subst (λ s. has_session s st.sessions ≡ true) (sym same.0) h) in
        round appended.0 rec decided.0
          (replay_records rt cost_per_call now records
            (count_call rt cost_per_call now decided.0 decided.1) pol appended.1)
          appended.1 (length records) k _ stored.0 (decide-allow rec sess st k e m z)
          (records-HasReplayed records id (count_call rt cost_per_call now decided.0 decided.1)
            appended.1 (bump decided.0.action k) same.1 (ap (has_session id) stored.1 ∙ h)
            (count_call-count decided.0 decided.1 k (decide-count rec sess st k e)
              (omega (arith, b)))
            (omega (arith, b, bump_le decided.0.action k)))

    created :
        (fault : Option GoError) (first : AuditRecord) (records : List AuditRecord) (st : Store)
        → fault ≡ none
        → any (has_id first.session_id) st.sessions ≡ false
        → All (λ (r : AuditRecord). r.session_id ≡ first.session_id) (first ∷ records)
        → length (first ∷ records) < 2 ^ 63
        → HasReplayed (length (first ∷ records)) limit 0 (
            in_new_session rt cost_per_call now
              (create_session rt fault now.duplicate now.now first.session_id first.agent_name
                pol.fingerprint st)
              first
              records
              pol)
    unfolding in_new_session create_session
    created (some x) first records st f fresh same b = absurd cc
    created none first records st f fresh same b = rw fresh (
        records-HasReplayed (first ∷ records) first.session_id
          (new_session first.session_id first.agent_name pol) _ 0 same
          (has_session-append first.session_id st.sessions _ refl) refl (omega (arith, b)))

    -- For records of one session that is new to the store, a policy with a positive limit of calls, and a
    -- database without errors, the replay of the session gives one entry for each record, and allows no
    -- more calls than the limit. The number of records is below 2 ^ 63.
    pub replay_session-IsBudgeted :
        (first : AuditRecord) (records : List AuditRecord) (st : Store)
        → now.create_fault first.session_id ≡ none
        → any (has_id first.session_id) st.sessions ≡ false
        → All (λ (r : AuditRecord). r.session_id ≡ first.session_id) (first ∷ records)
        → length (first ∷ records) < 2 ^ 63
        → IsBudgeted
            (length (first ∷ records))
            limit
            (replay_session rt cost_per_call now (first ∷ records) pol st)
    unfolding replay_session
    replay_session-IsBudgeted first records st f fresh same b =
        HasReplayed-IsBudgeted (length (first ∷ records)) limit
          (replay_session rt cost_per_call now (first ∷ records) pol st)
          (created (now.create_fault first.session_id) first records st f fresh same b)

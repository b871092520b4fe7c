-- ===== src/Engine/Chain/Backends.antt =====
-- internal/engine/membackend.go against storebackend.go: the memory backend, loaded from the store,
-- answers the four queries as the store does.
use mathlib.Core.List.{map}
use truebearing.Base.{
  ℕ, ◌+◌, ℤ, int64, String, ◌≡◌, ◌∙◌, ap, sym, refl, Bool, true, false, ◌&&◌, none, List, [], ◌∷◌,
  ◌==◌, arith, any, is_empty, keep, length,
}
use truebearing.Engine.MemBackend.{
  count_events, err_parent_agent_not_found, has_approval, mem_backend, MemBackend,
}
use truebearing.Engine.StoreBackend.{
  ReadFaults, store_backend, convert_events, decode_scope, scope_of, to_entry,
}
use truebearing.Engine.Types.{ApprovedEscalationEntry, QueryBackend}
use truebearing.Go.{Runtime, ok, err}
use truebearing.Store.Agents.{allowed_tools, get_agent}
use truebearing.Store.Escalations.{approves, has_approved_escalation}
use truebearing.Store.Events.{count_session_events_since, in_window, of_session}
use truebearing.Store.Events.Log.{events_of, get-events_of, IsLogged}
use truebearing.Store.Rows.{Agent, Escalation, from_null, SessionEvent, Store}

abbrev pub no_faults : ReadFaults
no_faults = record { events = none; count = none; approved = none; agent = none }

module _ (rt : Runtime) (id : String) where
  -- An escalation that counts as approved in the session, as the backend holds it.
  abbrev pub is_approved : Escalation → Bool
  is_approved e = e.session_id == id && e.status == "approved"

  abbrev pub approval_of : Escalation → ApprovedEscalationEntry
  approval_of e = record {
    tool_name = e.tool_name;
    args_hash = rt.sha256_hex (from_null e.arguments_json);
  }

  -- The memory backend with the session's part of a store and the parent's tools.
  abbrev pub loaded : List String → Store → MemBackend
  loaded tools s = record {
    events = map to_entry (events_of id s);
    approved_escalations = map approval_of (keep is_approved s.escalations);
    parent_tools = tools;
  }

  same_count :
      (tool : String) (since : ℤ) (n : ℕ) (rows : List SessionEvent)
      → count_events n tool since (map to_entry (keep (of_session id) rows))
        ≡ n + length (keep (in_window rt id tool since) rows)
  unfolding count_events keep
  same_count tool since n [] = ground arith
  same_count tool since n (r ∷ rows) =
      ground (arith, same_count tool since n rows, same_count tool since (n + 1) rows)

  same_approvals :
      (tool hash : String) (rows : List Escalation)
      → has_approval tool hash (map approval_of (keep is_approved rows))
        ≡ any (approves rt id tool hash) rows
  unfolding has_approval keep any
  same_approvals tool hash [] = refl
  same_approvals tool hash (r ∷ rows) = ground (arith, same_approvals tool hash rows)

  module _ (s : Store) (tools : List String) where
    abbrev memory : QueryBackend
    memory = mem_backend (loaded tools s)

    abbrev stored : QueryBackend
    stored = store_backend rt no_faults s

    same_events : IsLogged s → memory.get_session_events id ≡ stored.get_session_events id
    unfolding mem_backend store_backend
    same_events w = sym (ap (λ r. convert_events rt r id) (get-events_of rt id s w))

    same_scope :
        (name : String) {a : Agent}
        → get_agent rt none name s ≡ ok a
        → allowed_tools rt a ≡ ok tools
        → is_empty tools ≡ false
        → memory.get_agent_allowed_tools name ≡ stored.get_agent_allowed_tools name
    unfolding mem_backend store_backend
    same_scope name {a} g d n =
        rw n (sym (ap (λ r. scope_of rt r name) g ∙ ap (λ r. decode_scope rt r name) d))

    -- On a store whose log is numbered, without faults, the memory backend loaded for a session answers
    -- for it as the store does: the same events, the same count of every window, the same approvals, and
    -- the same tools of a parent that is registered with the loaded tools, of which there is at least one.
    pub loaded-agrees :
        IsLogged s
        → (parent : String) {a : Agent} → get_agent rt none parent s ≡ ok a
        → allowed_tools rt a ≡ ok tools
        → is_empty tools ≡ false
        → (tool hash : String) (since : ℤ)
        → (memory.get_session_events id ≡ stored.get_session_events id)
          × (memory.count_session_events_since id tool since
              ≡ stored.count_session_events_since id tool since)
          × (memory.has_approved_escalation id tool hash
              ≡ stored.has_approved_escalation id tool hash)
          × (memory.get_agent_allowed_tools parent ≡ stored.get_agent_allowed_tools parent)
    unfolding mem_backend store_backend count_session_events_since has_approved_escalation
    loaded-agrees w parent g d n tool hash since = (
      same_events w,
      ap ok (omega (arith, same_count tool (int64 since) 0 s.session_events)),
      ap ok (same_approvals tool hash s.escalations),
      same_scope parent g d n,
    )

    -- On a parent that is registered with no tools the two backends differ: the memory backend reports it
    -- as not registered, the store backend answers with the empty list of its tools.
    pub empty_scope-differs :
        (parent : String) {a : Agent}
        → get_agent rt none parent s ≡ ok a
        → allowed_tools rt a ≡ ok tools
        → is_empty tools ≡ true
        → (memory.get_agent_allowed_tools parent ≡ err err_parent_agent_not_found)
          × (stored.get_agent_allowed_tools parent ≡ ok tools)
    unfolding mem_backend store_backend
    empty_scope-differs parent g d e =
        (rw e refl, ap (λ r. scope_of rt r parent) g ∙ ap (λ r. decode_scope rt r parent) d)

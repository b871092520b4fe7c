-- ===== src/Engine/StoreBackend.antt =====
-- internal/engine/storebackend.go: the queries of the pipeline on the store.
use mathlib.Core.List.{map}
use truebearing.Base.{int64, String, Option, List, [], ◌∷◌}
use truebearing.Go.{Runtime, GoError, no_rows, Result, ok, err, wrapf}
use truebearing.Engine.MemBackend.{err_parent_agent_not_found}
use truebearing.Engine.Types.{SessionEventEntry, QueryBackend}
use truebearing.Store.Agents.{get_agent, allowed_tools}
use truebearing.Store.Escalations.{has_approved_escalation}
use truebearing.Store.Events.{get_session_events, count_session_events_since}
use truebearing.Store.Rows.{Store, SessionEvent, Agent}

-- What the driver answers to the four queries, where it fails.
pub record ReadFaults : Type 0 where
  pub events : Option GoError
  pub count : Option GoError
  pub approved : Option GoError
  pub agent : Option GoError

abbrev pub to_entry : SessionEvent → SessionEventEntry
to_entry r = record { tool_name = r.tool_name; decision = r.decision; recorded_at = r.recorded_at }

module _ (rt : Runtime) where
  unfoldable pub convert_events :
      Result (List SessionEvent) → String → Result (List SessionEventEntry)
  convert_events (err e) id =
      err (wrapf ("StoreBackend.GetSessionEvents for session " ∷ rt.quote id ∷ ": " ∷ []) e)
  convert_events (ok rows) id = ok (map to_entry rows)

  unfoldable pub decode_scope : Result (List String) → String → Result (List String)
  decode_scope (err e) name = err (
      wrapf ("StoreBackend.GetAgentAllowedTools decoding tools for " ∷ rt.quote name ∷ ": " ∷ []) e)
  decode_scope (ok tools) name = ok tools

  lookup_error : GoError → String → GoError
  lookup_error e name = elim e.kind [
    | no_rows ↦ err_parent_agent_not_found
    | _ ↦ wrapf ("StoreBackend.GetAgentAllowedTools for agent " ∷ rt.quote name ∷ ": " ∷ []) e
  ]

  unfoldable pub scope_of : Result Agent → String → Result (List String)
  unfolding decode_scope lookup_error
  scope_of (err e) name = err (lookup_error e name)
  scope_of (ok a) name = decode_scope (allowed_tools rt a) name

  unfoldable pub store_backend : ReadFaults → Store → QueryBackend
  unfolding convert_events scope_of
  store_backend faults s = record {
    get_session_events = λ id. convert_events (get_session_events rt faults.events id s) id;
    count_session_events_since =
        λ id tool since. count_session_events_since rt faults.count id tool (int64 since) s;
    has_approved_escalation =
        λ id tool hash. has_approved_escalation rt faults.approved id tool hash s;
    get_agent_allowed_tools = λ name. scope_of (get_agent rt faults.agent name s) name;
  }

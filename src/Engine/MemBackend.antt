-- ===== src/Engine/MemBackend.antt =====
-- internal/engine/membackend.go: the state of one session, loaded beforehand.
use truebearing.Base.{
  ℕ, ◌+◌, ℤ, int64, leb_ℤ, String, Bool, ◌&&◌, List, [], ◌∷◌, ◌==◌, if◌then◌else◌, any, is_empty,
}
use truebearing.Go.{GoError, parent_agent_not_found, Result, ok, err}
use truebearing.Engine.Types.{
  SessionEventEntry, ApprovedEscalationEntry, QueryBackend, was_executed,
}

pub record MemBackend : Type 0 where
  pub events : List SessionEventEntry
  pub approved_escalations : List ApprovedEscalationEntry
  pub parent_tools : List String

abbrev pub err_parent_agent_not_found : GoError
err_parent_agent_not_found = record {
  kind = parent_agent_not_found;
  message = "parent agent not found";
}

-- The loop of `CountSessionEventsSince`, with the count that it has reached.
unfoldable pub count_events : ℕ → String → ℤ → List SessionEventEntry → ℕ
count_events n tool since [] = n
count_events n tool since (ev ∷ events) =
    let matches =
      ev.tool_name == tool && (was_executed ev.decision && leb_ℤ since ev.recorded_at) in
    count_events (if matches then n + 1 else n) tool since events

unfoldable pub has_approval : String → String → List ApprovedEscalationEntry → Bool
has_approval tool hash entries = any (λ e. e.tool_name == tool && e.args_hash == hash) entries

unfoldable pub parent_scope : List String → Result (List String)
parent_scope tools = if is_empty tools then err err_parent_agent_not_found else ok tools

unfoldable pub mem_backend : MemBackend → QueryBackend
unfolding count_events has_approval parent_scope
mem_backend m = record {
  get_session_events = λ id. ok m.events;
  count_session_events_since = λ id tool since. ok (count_events 0 tool (int64 since) m.events);
  has_approved_escalation = λ id tool hash. ok (has_approval tool hash m.approved_escalations);
  get_agent_allowed_tools = λ name. parent_scope m.parent_tools;
}

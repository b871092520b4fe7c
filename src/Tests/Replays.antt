-- ===== src/Tests/Replays.antt =====
-- The replay of a short log.
use truebearing.Base.{pos, ◌≡◌, refl, arith, false, none, [], ◌∷◌, any}
use truebearing.Go.{zero_float}
use truebearing.Policy.{Policy}
use truebearing.Replay.{replay_session, ReplayConditions}
use truebearing.Replay.Budgeted.{IsBudgeted, replay_session-IsBudgeted}
use truebearing.Store.Rows.{AuditRecord, Store}
use truebearing.Store.Sessions.{has_id}
use truebearing.Tests.World.{
  driver_error, no_read_faults, session_row, store_with, test_policy, test_runtime,
}

abbrev calm : ReplayConditions
calm = record {
  now = pos 2000;
  read_faults = no_read_faults;
  create_fault = λ id. none;
  append_fault = λ rec. none;
  duplicate = driver_error;
  refused = driver_error;
}

abbrev logged : AuditRecord
logged = record {
  id = "a1";
  session_id = "s9";
  seq = 1;
  agent_name = "bot";
  tool_name = "read";
  arguments_sha256 = "h";
  decision = "allow";
  decision_reason = "";
  policy_fingerprint = "f1";
  agent_jwt_sha256 = "j";
  client_trace_id = "";
  delegation_chain = "";
  recorded_at = pos 1000;
  signature = "sig";
}

abbrev later : AuditRecord
later = record logged { id = "a2"; seq = 2; recorded_at = pos 1001 }

-- One call only.
abbrev narrow : Policy
narrow = record test_policy {
  budget = record { max_tool_calls = pos 1; max_cost_usd = record { bits = 100 } };
}

abbrev store : Store
store = store_with (session_row false)

is_new : any (has_id "s9") store.sessions ≡ false
unfolding any
is_new = refl

replay_session-IsBudgeted_example :
    IsBudgeted 2 1 (replay_session test_runtime zero_float calm (logged ∷ later ∷ []) narrow store)
replay_session-IsBudgeted_example =
    replay_session-IsBudgeted test_runtime zero_float calm narrow 1 (λ rec. refl) refl (omega arith)
      logged (later ∷ []) store refl is_new (refl, (refl, tt)) (omega arith)

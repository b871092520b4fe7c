-- ===== src/Replay.antt =====
-- cmd/audit/replay.go: the calls of an audit log, evaluated again under a policy over an empty store. A
-- float64 cost per call is a parameter, as are the errors of the database.
pub mod Counts
pub mod Budgeted
use truebearing.Base.{
  ℕ, ℤ, pos, ◌+ℤ◌, int64, String, Bool, true, false, not, ◌||◌, Option, none, some, List, [], ◌∷◌,
  ◌++◌, ◌==◌, if◌then◌else◌, contains, keep,
}
use truebearing.Base.Sort.{order_by}
use truebearing.Engine.Budget
use truebearing.Engine.MayUse
use truebearing.Engine.Pipeline
use truebearing.Engine.RateLimit
use truebearing.Engine.Sequence
use truebearing.Engine.StoreBackend.{ReadFaults, store_backend}
use truebearing.Engine.Taint
use truebearing.Engine.Types.{
  Action, action_string, allow, Decision, Evaluator, QueryBackend, shadow_deny, ToolCall,
}
use truebearing.Go.{err, Float64, GoError, ok, Result, Runtime, wrapf, zero_float}
use truebearing.Policy.{Policy}
use truebearing.Session.{Session}
use truebearing.Store.Events.{append_event, AppendStage}
use truebearing.Store.Rows.{AuditRecord, nullable_string, SessionEvent, Store}
use truebearing.Store.Sessions.{create_session}

pub record ReplayEntry : Type 0 where
  pub session_id : String
  pub seq : ℕ
  pub tool_name : String
  pub old_decision : String
  pub new_decision : String
  pub changed : Bool
  pub reason : String

-- The clock and the errors of the database during a replay.
pub record ReplayConditions : Type 0 where
  pub now : ℤ
  pub read_faults : ReadFaults
  pub create_fault : String → Option GoError
  pub append_fault : AuditRecord → Option (AppendStage × GoError)
  pub duplicate : GoError
  pub refused : GoError

-- The sessions of the records, in the order in which they come first, after those already met.
unfoldable pub encounter_order : List String → List AuditRecord → List String
encounter_order order [] = order
encounter_order order (rec ∷ records) =
    encounter_order (if contains order rec.session_id then order else order ++ rec.session_id ∷ [])
      records

unfoldable pub groups_of : List AuditRecord → List String → List (List AuditRecord)
groups_of records [] = []
groups_of records (id ∷ order) =
    order_by (λ (r : AuditRecord). r.seq) (keep (λ (r : AuditRecord). r.session_id == id) records)
    ∷ groups_of records order

-- Records of equal number in a session keep their order, which `sort.Slice` leaves open.
unfoldable pub group_audit_by_session : List AuditRecord → List (List AuditRecord)
unfolding encounter_order groups_of
group_audit_by_session records = groups_of records (encounter_order [] records)

-- The call that a record stands for, without its arguments.
abbrev pub call_of : AuditRecord → ToolCall
call_of rec = record {
  session_id = rec.session_id;
  agent_name = rec.agent_name;
  tool_name = rec.tool_name;
  arguments = "{}";
  agent_env = "";
  parent_agent = "";
  requested_at = rec.recorded_at;
}

abbrev pub event_of : AuditRecord → Decision → SessionEvent
event_of rec d = record {
  seq = 0;
  session_id = rec.session_id;
  tool_name = rec.tool_name;
  arguments_json = none;
  decision = action_string d.action;
  policy_rule = nullable_string d.rule_id;
  recorded_at = rec.recorded_at;
}

abbrev pub entry_of : AuditRecord → Decision → ReplayEntry
entry_of rec d = record {
  session_id = rec.session_id;
  seq = rec.seq;
  tool_name = rec.tool_name;
  old_decision = rec.decision;
  new_decision = action_string d.action;
  changed = not (action_string d.action == rec.decision);
  reason = d.reason;
}

abbrev pub new_session : String → String → Policy → Session
new_session id agent_name pol = record {
  id = id;
  agent_name = agent_name;
  policy_fingerprint = pol.fingerprint;
  tainted = false;
  tool_call_count = pos 0;
  estimated_cost_usd = zero_float;
  terminated = false;
}

-- `newDecision.Action == engine.Allow || newDecision.Action == engine.ShadowDeny`
abbrev pub was_let : Action → Bool
was_let a = elim a [ allow ↦ true | shadow_deny ↦ true | _ ↦ false ]

-- The result of the later records, with the entry of this one before it.
abbrev pub with_entry :
    ReplayEntry → Result (List ReplayEntry) × Store → Result (List ReplayEntry) × Store
with_entry entry (ok entries, st) = (ok (entry ∷ entries), st)
with_entry entry (err e, st) = (err e, st)

abbrev pub with_entries :
    List ReplayEntry → Result (List ReplayEntry) × Store → Result (List ReplayEntry) × Store
with_entries new (ok entries, st) = (ok (new ++ entries), st)
with_entries new (err e, st) = (err e, st)

module _ (rt : Runtime) (cost_per_call : Float64) (now : ReplayConditions) where
  unfoldable pub replay_stages : QueryBackend → List Evaluator
  replay_stages store =
      MayUse.evaluate rt
      ∷ Budget.evaluate rt
      ∷ Taint.evaluate rt
      ∷ Sequence.evaluate rt store
      ∷ RateLimit.evaluate rt now.now store
      ∷ []

  unfoldable pub count_call : Decision → Session → Session
  count_call d sess =
      if was_let d.action
      then record sess {
        tool_call_count = int64 (sess.tool_call_count +ℤ pos 1);
        estimated_cost_usd = rt.float_add sess.estimated_cost_usd cost_per_call;
      }
      else sess

  abbrev pub decide : AuditRecord → Session → Policy → Store → Decision × Session
  decide rec sess pol st =
      Pipeline.evaluate (replay_stages (store_backend rt now.read_faults st)) (call_of rec) sess pol

  -- The loop over the records of a session.
  unfoldable pub replay_records :
      List AuditRecord → Session → Policy → Store → Result (List ReplayEntry) × Store
  unfolding count_call replay_stages
  replay_records [] sess pol st = (ok [], st)
  replay_records (rec ∷ records) sess pol st =
      let decided = decide rec sess pol st in
      let appended =
        append_event rt (now.append_fault rec) now.refused now.now (event_of rec decided.0) st in
      let rest = replay_records records (count_call decided.0 decided.1) pol appended.1 in
      elim appended.0 [
        | err e ↦ (
          err (wrapf ("appending replay event for tool " ∷ rt.quote rec.tool_name ∷ ": " ∷ []) e),
          appended.1,
        )
        | ok seq ↦ with_entry (entry_of rec decided.0) rest
      ]

  unfoldable pub in_new_session :
      Result (Unit {0}) × Store
      → AuditRecord
      → List AuditRecord
      → Policy
      → Result (List ReplayEntry) × Store
  unfolding replay_records
  in_new_session (err e, st) first records pol =
      (err (wrapf ("creating replay session: " ∷ []) e), st)
  in_new_session (ok u, st) first records pol =
      replay_records (first ∷ records) (new_session first.session_id first.agent_name pol) pol st

  unfoldable pub replay_session :
      List AuditRecord → Policy → Store → Result (List ReplayEntry) × Store
  unfolding in_new_session
  replay_session [] pol st = (ok [], st)
  replay_session (first ∷ records) pol st =
      in_new_session
        (create_session rt (now.create_fault first.session_id) now.duplicate now.now
          first.session_id first.agent_name pol.fingerprint st)
        first records pol

  replay_failed : List AuditRecord → GoError → GoError
  replay_failed [] e = e
  replay_failed (first ∷ records) e =
      wrapf ("replaying session " ∷ rt.quote first.session_id ∷ ": " ∷ []) e

  -- The loop over the groups in `runReplay`.
  unfoldable pub replay_groups :
      List (List AuditRecord) → Policy → Store → Result (List ReplayEntry) × Store
  unfolding replay_session replay_failed
  replay_groups [] pol st = (ok [], st)
  replay_groups (group ∷ groups) pol st =
      let replayed = replay_session group pol st in
      let rest = replay_groups groups pol replayed.1 in
      elim replayed.0 [
        | err e ↦ (err (replay_failed group e), replayed.1)
        | ok entries ↦ with_entries entries rest
      ]

  unfoldable pub replay : List AuditRecord → Policy → Store → Result (List ReplayEntry) × Store
  unfolding replay_groups group_audit_by_session
  replay records pol st = replay_groups (group_audit_by_session records) pol st

-- ===== src/Proxy/Admin.antt =====
-- internal/proxy/admin.go, with the wrappers of internal/escalation/escalation.go that it calls. The
-- router has matched the path and the method; logging is left out.
pub mod Resolved
pub mod Answers
pub mod Retried
use truebearing.Base.{
  ℕ, ℤ, pos, String, Bool, true, false, not, ◌&&◌, Option, none, some, List, [], ◌∷◌, ◌==◌,
  if◌then◌else◌,
}
use mathlib.Core.List.{map}
use truebearing.Go.{err, ErrorKind, GoError, no_rows, ok, plain, Result, Runtime, text, wrapf}
use truebearing.Proxy.State.{Proxy}
use truebearing.Store.Escalations.{approve_escalation, list_escalations, reject_escalation}
use truebearing.Store.Rows.{Escalation, from_null, Store}

-- The JSON of an escalation.
pub record AdminEscalation : Type 0 where
  pub id : String
  pub session_id : String
  pub seq : ℕ
  pub tool_name : String
  pub arguments_json : String
  pub status : String
  pub reason : String
  pub created_at : ℤ
  pub resolved_at : ℤ

-- What a handler writes: a list, the new status of an escalation, or an error with its code.
pub data AdminResponse : Type 0 where
  listed : List AdminEscalation → AdminResponse
  resolved_as : String → String → AdminResponse
  admin_error : ℕ → String → AdminResponse

abbrev pub status_bad_request : ℕ
status_bad_request = 400

abbrev pub status_not_found : ℕ
status_not_found = 404

abbrev pub status_conflict : ℕ
status_conflict = 409

abbrev pub status_internal_server_error : ℕ
status_internal_server_error = 500

-- What the JSON decoder finds in the body: the note or the reason, nothing (`io.EOF`), or an error.
pub data Body : Type 0 where
  field : String → Body
  empty malformed : Body

-- The statements that fail, and the database's clock and order.
pub record AdminConditions : Type 0 where
  pub now : ℤ
  pub fault : Option GoError
  pub later_fault : Option GoError
  pub newest_first : List Escalation → List Escalation

abbrev pub or_zero : Option ℤ → ℤ
or_zero none = pos 0
or_zero (some n) = n

unfoldable pub to_admin_escalation : Escalation → AdminEscalation
to_admin_escalation e = record {
  id = e.id;
  session_id = e.session_id;
  seq = e.seq;
  tool_name = e.tool_name;
  arguments_json = from_null e.arguments_json;
  status = e.status;
  reason = from_null e.reason;
  created_at = e.created_at;
  resolved_at = or_zero e.resolved_at;
}

module _ (rt : Runtime) where
  -- `escalation.Approve` and `escalation.Reject`
  unfoldable pub wrap : String → String → Result (Unit {0}) × Store → Result (Unit {0}) × Store
  wrap doing id (ok u, s) = (ok u, s)
  wrap doing id (err e, s) = (err (wrapf (doing ∷ " escalation " ∷ rt.quote id ∷ ": " ∷ []) e), s)

  unfoldable pub approve : AdminConditions → String → String → Store → Result (Unit {0}) × Store
  unfolding wrap
  approve now id note s =
      wrap "approving" id (approve_escalation rt now.fault now.later_fault now.now id note s)

  unfoldable pub reject : AdminConditions → String → String → Store → Result (Unit {0}) × Store
  unfolding wrap
  reject now id reason s =
      wrap "rejecting" id (reject_escalation rt now.fault now.later_fault now.now id reason s)

  -- `errors.Is(err, sql.ErrNoRows)`
  abbrev pub is_no_rows : GoError → Bool
  is_no_rows e = elim e.kind [ no_rows ↦ true | _ ↦ false ]

  unfoldable pub write_admin_escalation_error : String → GoError → AdminResponse
  write_admin_escalation_error action e =
      if is_no_rows e
      then admin_error status_not_found "escalation not found"
      else if rt.has_substring e.message "cannot be resolved"
      then admin_error status_conflict e.message
      else admin_error status_internal_server_error
          (text ("could not " ∷ action ∷ " escalation" ∷ []))

  unfoldable pub respond :
      String → String → String → Proxy → Result (Unit {0}) × Store → AdminResponse × Proxy
  unfolding write_admin_escalation_error
  respond action status id p (ok u, s) = (resolved_as id status, record p { store = s })
  respond action status id p (err e, s) =
      (write_admin_escalation_error action e, record p { store = s })

  unfoldable pub handle_admin_approve_escalation :
      AdminConditions → String → Body → Proxy → AdminResponse × Proxy
  unfolding approve respond
  handle_admin_approve_escalation now id malformed p =
      (admin_error status_bad_request "invalid JSON body", p)
  handle_admin_approve_escalation now id empty p =
      respond "approve" "approved" id p (approve now id "" p.store)
  handle_admin_approve_escalation now id (field note) p =
      respond "approve" "approved" id p (approve now id note p.store)

  unfoldable pub handle_admin_reject_escalation :
      AdminConditions → String → Body → Proxy → AdminResponse × Proxy
  unfolding reject respond
  handle_admin_reject_escalation now id malformed p =
      (admin_error status_bad_request "invalid JSON body", p)
  handle_admin_reject_escalation now id empty p =
      respond "reject" "rejected" id p (reject now id "" p.store)
  handle_admin_reject_escalation now id (field reason) p =
      respond "reject" "rejected" id p (reject now id reason p.store)

  list_response : Result (List Escalation) → AdminResponse
  unfolding to_admin_escalation
  list_response (ok escs) = listed (map to_admin_escalation escs)
  list_response (err e) = admin_error status_internal_server_error "could not list escalations"

  unfoldable pub handle_admin_list_escalations : AdminConditions → String → Proxy → AdminResponse
  unfolding list_response
  handle_admin_list_escalations now status p =
      if not (status == "")
        && (not (status == "pending") && (not (status == "approved") && not (status == "rejected")))
      then admin_error status_bad_request "status must be pending, approved, or rejected"
      else list_response (list_escalations rt now.newest_first now.fault status p.store)

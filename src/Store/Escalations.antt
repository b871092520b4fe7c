-- ===== src/Store/Escalations.antt =====
-- internal/store/escalations.go: the records of human review.
pub mod Approval
pub mod Kept
use truebearing.Base.{
  ℤ, pos, eqb_ℤ, String, Bool, true, false, ◌&&◌, Option, none, some, List, [], ◌∷◌, ◌++◌, ◌==◌,
  if◌then◌else◌, keep, any,
}
use truebearing.Base.Sort.{order_by}
use truebearing.Go.{Runtime, GoError, Result, ok, err, text, errorf, wrapf}
use truebearing.Store.Rows.{Store, Escalation, from_null, nullable_string, sql_no_rows}

abbrev pub has_id : String → Escalation → Bool
has_id id e = e.id == id

-- WHERE id = ? AND status = 'pending'
abbrev pub is_pending : String → Escalation → Bool
is_pending id e = has_id id e && e.status == "pending"

abbrev pub resolved : ℤ → String → String → Escalation → Escalation
resolved now status note e = record e {
  status = status;
  reason = nullable_string note;
  resolved_at = some now;
}

-- `UPDATE escalations SET … WHERE id = ? AND status = 'pending'`
unfoldable pub resolve_rows : ℤ → String → String → String → List Escalation → List Escalation
resolve_rows now id status note [] = []
resolve_rows now id status note (e ∷ rows) =
    (if is_pending id e then resolved now status note e else e)
    ∷ resolve_rows now id status note rows

unfoldable pub find_row : List Escalation → String → Option Escalation
find_row [] id = none
find_row (e ∷ rows) id = let rest = find_row rows id in if has_id id e then some e else rest

-- An empty status asks for all rows.
abbrev pub has_status : String → Escalation → Bool
has_status status e = if status == "" then true else e.status == status

module _ (rt : Runtime) where
  -- WHERE session_id = ? AND tool_name = ? AND status = 'approved', and the hash of the arguments,
  -- where NULL counts as no bytes.
  abbrev pub approves : String → String → String → Escalation → Bool
  approves session_id tool_name arguments_hash e =
      e.session_id == session_id
      && (e.tool_name == tool_name
          && (e.status == "approved"
              && rt.sha256_hex (from_null e.arguments_json) == arguments_hash))

  -- `duplicate` is the driver's error for a primary key that is taken.
  unfoldable pub create_escalation :
      Option GoError → GoError → ℤ → Escalation → Store → Result (Unit {0}) × Store
  create_escalation (some fault) duplicate now e s =
      (err (wrapf ("inserting escalation " ∷ rt.quote e.id ∷ ": " ∷ []) fault), s)
  create_escalation none duplicate now e s =
      let row = record e {
        created_at = if eqb_ℤ e.created_at (pos 0) then now else e.created_at;
      } in
      if any (has_id e.id) s.escalations
      then (err (wrapf ("inserting escalation " ∷ rt.quote e.id ∷ ": " ∷ []) duplicate), s)
      else (ok tt, record s { escalations = s.escalations ++ row ∷ [] })

  unfoldable pub has_approved_escalation :
      Option GoError → String → String → String → Store → Result Bool
  has_approved_escalation (some e) session_id tool_name arguments_hash s = err (
      wrapf
        ("querying approved escalations for session "
          ∷ rt.quote session_id
          ∷ " tool "
          ∷ rt.quote tool_name
          ∷ ": "
          ∷ [])
        e)
  has_approved_escalation none session_id tool_name arguments_hash s =
      ok (any (approves session_id tool_name arguments_hash) s.escalations)

  unfoldable pub status_of : Option Escalation → String → Result String
  status_of none id = err (wrapf ("escalation " ∷ rt.quote id ∷ " not found: " ∷ []) sql_no_rows)
  status_of (some e) id = ok e.status

  unfoldable pub get_escalation_status : Option GoError → String → Store → Result String
  unfolding status_of
  get_escalation_status (some e) id s =
      err (wrapf ("looking up escalation " ∷ rt.quote id ∷ ": " ∷ []) e)
  get_escalation_status none id s = status_of (find_row s.escalations id) id

  unfoldable pub not_resolved : Result String → String → GoError
  not_resolved (err e) id = wrapf ("escalation " ∷ rt.quote id ∷ " not found: " ∷ []) sql_no_rows
  not_resolved (ok current) id = errorf (
      "escalation "
      ∷ rt.quote id
      ∷ " cannot be resolved: current status is "
      ∷ rt.quote current
      ∷ [])

  -- `fault` hits the UPDATE and `later` the lookup that follows it where no row was affected.
  unfoldable pub resolve_escalation :
      Option GoError
      → Option GoError
      → ℤ
      → String
      → String
      → String
      → Store
      → Result (Unit {0}) × Store
  unfolding not_resolved
  resolve_escalation (some e) later now id status note s = (
    err (wrapf ("resolving escalation " ∷ rt.quote id ∷ " to " ∷ rt.quote status ∷ ": " ∷ []) e),
    s,
  )
  resolve_escalation none later now id status note s =
      if any (is_pending id) s.escalations
      then (ok tt, record s { escalations = resolve_rows now id status note s.escalations })
      else (err (not_resolved (get_escalation_status later id s) id), s)

  unfoldable pub approve_escalation :
      Option GoError → Option GoError → ℤ → String → String → Store → Result (Unit {0}) × Store
  unfolding resolve_escalation
  approve_escalation fault later now id note s =
      resolve_escalation fault later now id "approved" note s

  unfoldable pub reject_escalation :
      Option GoError → Option GoError → ℤ → String → String → Store → Result (Unit {0}) × Store
  unfolding resolve_escalation
  reject_escalation fault later now id reason s =
      resolve_escalation fault later now id "rejected" reason s

  unfoldable pub get_escalations_by_session :
      Option GoError → String → Store → Result (List Escalation)
  get_escalations_by_session (some e) session_id s =
      err (wrapf ("querying escalations for session " ∷ rt.quote session_id ∷ ": " ∷ []) e)
  get_escalations_by_session none session_id s =
      ok (order_by (λ e. e.seq) (keep (λ e. e.session_id == session_id) s.escalations))

  -- `newest_first` is the database's `ORDER BY created_at DESC`.
  unfoldable pub list_escalations :
      (List Escalation → List Escalation)
      → Option GoError
      → String
      → Store
      → Result (List Escalation)
  list_escalations newest_first (some e) status s =
      err (wrapf ("listing escalations (status=" ∷ rt.quote status ∷ "): " ∷ []) e)
  list_escalations newest_first none status s =
      ok (newest_first (keep (has_status status) s.escalations))

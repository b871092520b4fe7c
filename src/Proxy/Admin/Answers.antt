-- ===== src/Proxy/Admin/Answers.antt =====
-- What the operator is told of a resolution, and what it changes.
use Prim.Native.String.{◌++◌ as append}
use truebearing.Base.{
  ℤ, String, ◌≡◌, ◌⊎◌, inl, inr, refl, ap, ◌∙◌, ◌==◌, Bool, true, false, Option, none, some, List,
  [], ◌∷◌, if◌then◌else◌, any,
}
use truebearing.Go.{err, errorf, GoError, ok, Result, Runtime, text, wrapf}
use truebearing.Proxy.Admin.{
  admin_error, AdminConditions, AdminResponse, approve, Body, empty, field, malformed,
  handle_admin_approve_escalation, handle_admin_reject_escalation, reject, resolved_as, respond,
  status_conflict, status_internal_server_error, wrap, write_admin_escalation_error,
}
use truebearing.Proxy.State.{Proxy}
use truebearing.Store.Escalations.{
  approve_escalation, find_row, get_escalation_status, is_pending, not_resolved, reject_escalation,
  resolve_escalation, resolve_rows, status_of,
}
use truebearing.Store.Rows.{Escalation, sql_no_rows, Store}
use truebearing.Proxy.Admin.Resolved.{
  any-find_row, AreResolved, is_open, is_there, resolve_rows-AreResolved,
}

-- No statement fails.
abbrev pub at : ℤ → (List Escalation → List Escalation) → AdminConditions
at now newest_first = record {
  now = now;
  fault = none;
  later_fault = none;
  newest_first = newest_first;
}

module _ (rt : Runtime) where
  -- The error for an escalation that is there and not pending.
  abbrev pub conflict : String → String → GoError
  conflict id current = errorf (
      "escalation "
      ∷ rt.quote id
      ∷ " cannot be resolved: current status is "
      ∷ rt.quote current
      ∷ [])

  -- `strings.Contains` finds the phrase in that error, however it is wrapped.
  abbrev pub Mentions : Type 0
  Mentions =
      (before id current : String)
      → rt.has_substring (append before (conflict id current).message) "cannot be resolved" ≡ true

  -- What a resolution in the store comes to, when no statement fails.
  abbrev Resolved : ℤ → String → String → String → Store → Result (Unit {0}) × Store → Type 0
  Resolved now id status note s r =
      ((any (is_pending id) s.escalations ≡ true)
        × (r ≡ (ok tt, record s { escalations = resolve_rows now id status note s.escalations })))
      ⊎ ((find_row s.escalations id ≡ none)
          × ((parts : List String) × (r ≡ (err (wrapf parts sql_no_rows), s))))
      ⊎ ((row : Escalation) × (any (is_pending id) s.escalations ≡ false)
          × (find_row s.escalations id ≡ some row)
          × (r ≡ (err (conflict id row.status), s)))

  unresolved :
      (now : ℤ) (id status note : String) (s : Store) (o : Option Escalation)
      → any (is_pending id) s.escalations ≡ false
      → find_row s.escalations id ≡ o
      → Resolved now id status note s (err (not_resolved rt (status_of rt o id) id), s)
  unfolding not_resolved status_of
  unresolved now id status note s none q e =
      inr (inl (e, ("escalation " ∷ rt.quote id ∷ " not found: " ∷ [], refl)))
  unresolved now id status note s (some row) q e = inr (inr (row, q, e, refl))

  resolve-Resolved :
      (now : ℤ) (id status note : String) (s : Store)
      → Resolved now id status note s (resolve_escalation rt none none now id status note s)
  unfolding resolve_escalation get_escalation_status
  resolve-Resolved now id status note s = split (any (is_pending id) s.escalations) refl
    where
      split :
          (b : Bool)
          → any (is_pending id) s.escalations ≡ b
          → Resolved now id status note s (
              if b
              then (ok tt, record s { escalations = resolve_rows now id status note s.escalations })
              else (err (not_resolved rt (status_of rt (find_row s.escalations id) id) id), s))
      split true q = inl (q, refl)
      split false q = unresolved now id status note s (find_row s.escalations id) q refl

  -- The three answers of a handler: it resolved the pending escalation, there is none with the id, or it
  -- was resolved before.
  abbrev pub IsAnswered : ℤ → String → String → String → Proxy → AdminResponse × Proxy → Type 0
  IsAnswered now id status note p r =
      ((any (is_open id) p.store.escalations ≡ true)
        × ((rows : List Escalation) × AreResolved now id status note p.store.escalations rows
            × (r ≡ (
              resolved_as id status,
              record p { store = record p.store { escalations = rows } },
            ))))
      ⊎ ((any (λ e. e.id == id) p.store.escalations ≡ false)
          × (r ≡ (admin_error 404 "escalation not found", p)))
      ⊎ ((any (λ e. e.id == id) p.store.escalations ≡ true)
          × (any (is_open id) p.store.escalations ≡ false)
          × ((message : String) × (r ≡ (admin_error 409 message, p))))

  -- The answer to a body: without a note, an empty body is as good as an empty note, and a body that
  -- cannot be decoded is refused.
  abbrev pub IsAnsweredTo : Body → ℤ → String → String → Proxy → AdminResponse × Proxy → Type 0
  IsAnsweredTo (field note) now id status p r = IsAnswered now id status note p r
  IsAnsweredTo empty now id status p r = IsAnswered now id status "" p r
  IsAnsweredTo malformed now id status p r = r ≡ (admin_error 400 "invalid JSON body", p)

  answered :
      (now : ℤ) (doing action id status note : String) (p : Proxy) (r : Result (Unit {0}) × Store)
      → Mentions
      → Resolved now id status note p.store r
      → IsAnswered now id status note p (respond rt action status id p (wrap rt doing id r))
  unfolding respond wrap write_admin_escalation_error
  answered now doing action id status note p r m (inl (q, e)) = inl (
    q,
    (
      resolve_rows now id status note p.store.escalations,
      resolve_rows-AreResolved now id status note p.store.escalations,
      ap (λ x. respond rt action status id p (wrap rt doing id x)) e,
    ),
  )
  answered now doing action id status note p r m (inr (inl (q, (parts, e)))) = inr (
      inl (
        any-find_row id p.store.escalations ∙ ap is_there q,
        ap (λ x. respond rt action status id p (wrap rt doing id x)) e,
      ))
  answered now doing action id status note p r m (inr (inr (row, q, f, e))) = inr (
      inr (
        any-find_row id p.store.escalations ∙ ap is_there f,
        q,
        (
          wrapped.message,
          ap (λ x. respond rt action status id p (wrap rt doing id x)) e
              ∙ ap
                  (λ b. (
                    (if b
                        then admin_error status_conflict wrapped.message
                        else admin_error status_internal_server_error
                            (text ("could not " ∷ action ∷ " escalation" ∷ []))),
                    p,
                  ))
                  (m (text before) id row.status),
        ),
      ))
    where
      before : List String
      before = doing ∷ " escalation " ∷ rt.quote id ∷ ": " ∷ []

      wrapped : GoError
      wrapped = wrapf before (conflict id row.status)

  resolution :
      (now : ℤ) (id note : String) (p : Proxy)
      → Mentions
      → (doing action status : String)
      → IsAnswered now id status note p (
          respond rt action status id p
            (wrap rt doing id (resolve_escalation rt none none now id status note p.store)))
  resolution now id note p m doing action status =
      answered now doing action id status note p
        (resolve_escalation rt none none now id status note p.store) m
        (resolve-Resolved now id status note p.store)

  -- When no statement fails, approving or rejecting an escalation answers 200 if it is pending, and then
  -- its row has the new status, the note of the body, if there is one, and the time, and nothing else has
  -- changed; 404 if there is none with the id; and 409 if it was resolved before. An empty body counts as
  -- an empty note, and a body that cannot be decoded is answered 400. In all cases but the first the
  -- proxy stays as it was. The hypothesis says that the phrase is found in the store's error.
  pub admin-IsAnswered :
      Mentions
      → (now : ℤ) (newest_first : List Escalation → List Escalation) (id : String) (body : Body)
        (p : Proxy)
      → IsAnsweredTo body now id "approved" p
          (handle_admin_approve_escalation rt (at now newest_first) id body p)
        × IsAnsweredTo body now id "rejected" p
            (handle_admin_reject_escalation rt (at now newest_first) id body p)
  unfolding handle_admin_approve_escalation handle_admin_reject_escalation approve reject
      approve_escalation reject_escalation
  admin-IsAnswered m now newest_first id malformed p = (refl, refl)
  admin-IsAnswered m now newest_first id empty p = (
    resolution now id "" p m "approving" "approve" "approved",
    resolution now id "" p m "rejecting" "reject" "rejected",
  )
  admin-IsAnswered m now newest_first id (field note) p = (
    resolution now id note p m "approving" "approve" "approved",
    resolution now id note p m "rejecting" "reject" "rejected",
  )

-- ===== src/Store/Escalations/Approval.antt =====
-- Resolving an escalation: once, one way, and only an approval grants anything.
use mathlib.Core.Option.{some-injective}
use mathlib.Core.Path.{subst}
use truebearing.Base.{
  ℤ, pos, eqb_ℤ, String, ◌≡◌, ◌≢◌, inl, inr, refl, Bool, true, false, Option, none, some, List, [],
  ◌∷◌, ◌++◌, ◌==◌, arith, eq_iff, if◌then◌else◌, any, ap, ◌∙◌, Bool-cases,
}
use truebearing.Go.{Runtime, GoError, ok, err}
use truebearing.Store.Escalations.{
  approve_escalation, approves, create_escalation, find_row, get_escalation_status,
  has_approved_escalation, has_id, is_pending, not_resolved, reject_escalation, resolve_escalation,
  resolve_rows, resolved, status_of,
}
use truebearing.Store.Rows.{Store, Escalation, from_null}

-- A resolved row is not pending any more.
none_pending :
    (now : ℤ) (id status note : String) (rows : List Escalation)
    → status ≢ "pending"
    → any (is_pending id) (resolve_rows now id status note rows) ≡ false
unfolding any resolve_rows
none_pending now id status note [] h = refl
none_pending now id status note (e ∷ rows) h =
    ground (arith, eq_iff status "pending", none_pending now id status note rows h)

found_pending :
    (id : String) (rows : List Escalation) {e : Escalation}
    → find_row rows id ≡ some e
    → e.status ≡ "pending"
    → any (is_pending id) rows ≡ true
unfolding any find_row
found_pending id [] h k = ground arith
found_pending id (x ∷ rows) {e} h k = elim (Bool-cases (has_id id x)) [
  | inl m ↦ ground (arith, eq_iff x.status "pending")
  | inr m ↦ ground (arith, found_pending id rows {e = e})
]

module _ (rt : Runtime) where
  nothing_to_resolve :
      (fault later : Option GoError) (now : ℤ) (id status note : String) (s : Store)
      → any (is_pending id) s.escalations ≡ false
      → (e : GoError) × (resolve_escalation rt fault later now id status note s ≡ (err e, s))
  unfolding resolve_escalation
  nothing_to_resolve (some e) later now id status note s h = (_, refl)
  nothing_to_resolve none later now id status note s h =
      (not_resolved rt (get_escalation_status rt later id s) id, rw h)

  none_pending_after :
      (later : Option GoError) (now : ℤ) (id status note : String) (s : Store)
      → status ≢ "pending"
      → (resolve_escalation rt none later now id status note s).0 ≡ ok tt
      → any (is_pending id) (resolve_escalation rt none later now id status note s).1.escalations
        ≡ false
  unfolding resolve_escalation
  none_pending_after later now id status note s p h =
      ground (arith, none_pending now id status note s.escalations p)

  -- After a resolution succeeds, every later one of the same id fails and changes nothing, whatever the
  -- status and the faults of the second one are.
  pub resolve_escalation-once :
      (later : Option GoError) (now : ℤ) (id status note : String) (s : Store)
      → status ≢ "pending"
      → (resolve_escalation rt none later now id status note s).0 ≡ ok tt
      → (fault' later' : Option GoError) (now' : ℤ) (status' note' : String)
      → (e : GoError) × (resolve_escalation rt fault' later' now' id status' note'
            (resolve_escalation rt none later now id status note s).1
          ≡ (err e, (resolve_escalation rt none later now id status note s).1))
  resolve_escalation-once later now id status note s p h fault' later' now' status' note' =
      nothing_to_resolve fault' later' now' id status' note'
        (resolve_escalation rt none later now id status note s).1
        (none_pending_after later now id status note s p h)

  -- The equality tests that a row passes with itself.
  same_text : (t : String) → (t == t) ≡ true
  same_text t = (eq_iff t t).1 refl

  pending_test :
      (id : String) (e : Escalation)
      → has_id id e ≡ true
      → e.status ≡ "pending"
      → is_pending id e ≡ true
  pending_test id e m p = ground (arith, eq_iff e.status "pending")

  approved_head :
      (now : ℤ) (id note : String) (e : Escalation) (rows : List Escalation)
      → has_id id e ≡ true
      → e.status ≡ "pending"
      → (find_row (resolve_rows now id "approved" note (e ∷ rows)) id
          ≡ some (resolved now "approved" note e))
        × (any
              (approves rt e.session_id e.tool_name (rt.sha256_hex (from_null e.arguments_json)))
              (resolve_rows now id "approved" note (e ∷ rows))
            ≡ true)
  unfolding any find_row resolve_rows
  approved_head now id note e rows m p = rw (pending_test id e m p) (
      ground (
        arith,
        same_text e.session_id,
        same_text e.tool_name,
        same_text (rt.sha256_hex (from_null e.arguments_json)),
        same_text "approved",
      ))

  same_row :
      (id : String) (x : Escalation) (rows : List Escalation) {e : Escalation}
      → has_id id x ≡ true
      → find_row (x ∷ rows) id ≡ some e
      → x ≡ e
  unfolding find_row
  same_row id x rows {e} m h = ground (arith, some-injective x e)

  approved_row :
      (now : ℤ) (id note : String) (rows : List Escalation) {e : Escalation}
      → find_row rows id ≡ some e
      → e.status ≡ "pending"
      → (find_row (resolve_rows now id "approved" note rows) id
          ≡ some (resolved now "approved" note e))
        × (any
              (approves rt e.session_id e.tool_name (rt.sha256_hex (from_null e.arguments_json)))
              (resolve_rows now id "approved" note rows)
            ≡ true)
  unfolding any find_row resolve_rows
  approved_row now id note [] h p = ground arith
  approved_row now id note (x ∷ rows) {e} h p = elim (Bool-cases (has_id id x)) [
    | inl m ↦
        subst
          (λ y.
            (find_row (resolve_rows now id "approved" note (x ∷ rows)) id
              ≡ some (resolved now "approved" note y))
            × (any
                  (approves rt y.session_id y.tool_name
                    (rt.sha256_hex (from_null y.arguments_json)))
                  (resolve_rows now id "approved" note (x ∷ rows))
                ≡ true))
          (same_row id x rows m h)
          (approved_head now id note x rows m
            (ap (λ (y : Escalation). y.status) (same_row id x rows m h) ∙ p))
    | inr m ↦ ground (arith, approved_row now id note rows {e = e})
  ]

  -- Approving the pending escalation of an id succeeds; its status is then "approved", and calls of its
  -- session and tool with the same hash of the arguments are approved.
  pub approve_escalation-grants :
      (later : Option GoError) (now : ℤ) (id note : String) (s : Store) {e : Escalation}
      → find_row s.escalations id ≡ some e
      → e.status ≡ "pending"
      → ((approve_escalation rt none later now id note s).0 ≡ ok tt)
        × (get_escalation_status rt none id (approve_escalation rt none later now id note s).1
            ≡ ok "approved")
        × (has_approved_escalation rt none e.session_id e.tool_name
              (rt.sha256_hex (from_null e.arguments_json))
              (approve_escalation rt none later now id note s).1
            ≡ ok true)
  unfolding approve_escalation resolve_escalation get_escalation_status status_of
      has_approved_escalation
  approve_escalation-grants later now id note s {e} h p =
      ground (arith, found_pending id s.escalations h p, approved_row now id note s.escalations h p)

  rejected_row :
      (now : ℤ) (id reason session_id tool hash : String) (x : Escalation) (pending : Bool)
      → is_pending id x ≡ pending
      → approves rt session_id tool hash (if pending then resolved now "rejected" reason x else x)
        ≡ approves rt session_id tool hash x
  rejected_row now id reason session_id tool hash x false h = refl
  rejected_row now id reason session_id tool hash x true h = ground (
    arith,
    eq_iff x.status "pending",
    eq_iff x.status "approved",
    eq_iff "rejected" "approved",
    eq_iff "pending" "approved",
  )

  rejected_rows :
      (now : ℤ) (id reason session_id tool hash : String) (rows : List Escalation)
      → any (approves rt session_id tool hash) (resolve_rows now id "rejected" reason rows)
        ≡ any (approves rt session_id tool hash) rows
  unfolding any resolve_rows
  rejected_rows now id reason session_id tool hash [] = refl
  rejected_rows now id reason session_id tool hash (x ∷ rows) =
      ap
        (λ b.
          if b
          then true
          else any (approves rt session_id tool hash) (resolve_rows now id "rejected" reason rows))
        (rejected_row now id reason session_id tool hash x (is_pending id x) refl)
      ∙ ap (λ b. if approves rt session_id tool hash x then true else b)
          (rejected_rows now id reason session_id tool hash rows)

  appended_row :
      (session_id tool hash : String) (rows : List Escalation) (e : Escalation)
      → e.status ≢ "approved"
      → any (approves rt session_id tool hash) (rows ++ e ∷ [])
        ≡ any (approves rt session_id tool hash) rows
  unfolding any
  appended_row session_id tool hash [] e h = ground (arith, eq_iff e.status "approved")
  appended_row session_id tool hash (x ∷ rows) e h =
      ground (arith, appended_row session_id tool hash rows e h)

  -- Only an approval grants: neither a rejection nor the creation of an escalation that is not already
  -- approved changes which calls are approved.
  pub only_approval_grants :
      (fault later : Option GoError) (duplicate : GoError) (now : ℤ) (id reason : String)
      (e : Escalation) (s : Store)
      → e.status ≢ "approved"
      → (session_id tool hash : String)
      → (has_approved_escalation rt none session_id tool hash
            (reject_escalation rt fault later now id reason s).1
          ≡ has_approved_escalation rt none session_id tool hash s)
        × (has_approved_escalation rt none session_id tool hash
              (create_escalation rt fault duplicate now e s).1
            ≡ has_approved_escalation rt none session_id tool hash s)
  unfolding reject_escalation resolve_escalation create_escalation has_approved_escalation
  only_approval_grants fault later duplicate now id reason e s p session_id tool hash = (
    ground (arith, rejected_rows now id reason session_id tool hash s.escalations),
    ground (
      arith,
      appended_row session_id tool hash s.escalations
          (record e { created_at = if eqb_ℤ e.created_at (pos 0) then now else e.created_at }) p,
    ),
  )

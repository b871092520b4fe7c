-- ===== src/Tests/Logs.antt =====
-- The store and the policy cache at concrete rows.
use truebearing.Base.{
  ℕ, ℤ, pos, ◌≡◌, ◌≢◌, ◌⊎◌, ◌≤◌, ◌<◌, inl, inr, refl, String, List, [], ◌∷◌, ◌++◌, Bool, true,
  false, none, some, if◌then◌else◌, length, ◌==◌, arith, eq_iff,
}
use truebearing.Go.{GoError, ok, err}
use truebearing.Proxy.PolicyCache.{get, new_policy_lru, PolicyLru, set}
use truebearing.Proxy.PolicyCache.Bounded.{get-set-bounded}
use truebearing.Store.Escalations.{
  create_escalation, has_approved_escalation, reject_escalation, resolve_escalation,
}
use truebearing.Store.Escalations.Approval.{only_approval_grants, resolve_escalation-once}
use truebearing.Store.Events.{append_event, get_session_events, has_session}
use truebearing.Store.Events.Log.{
  append_event-IsLogged, events_of, get-append_event, IsLogged, next_row, next_seq,
}
use truebearing.Store.Rows.{SessionEvent, Store}
use truebearing.Tests.World.{
  driver_error, pending, session_row, store_with, test_policy, test_runtime,
}

abbrev store : Store
store = store_with (session_row false)

abbrev read_event : SessionEvent
read_event = record {
  seq = 0;
  session_id = "s1";
  tool_name = "read";
  arguments_json = none;
  decision = "allow";
  policy_rule = none;
  recorded_at = pos 0;
}

store-IsLogged : IsLogged store
unfolding truebearing.Base.keep
store-IsLogged id = tt

has_s1 : has_session "s1" store.sessions ≡ true
unfolding has_session truebearing.Base.any
has_s1 = refl

append_event-IsLogged_example :
    IsLogged (append_event test_runtime none driver_error (pos 7) read_event store).1
append_event-IsLogged_example =
    append_event-IsLogged test_runtime none driver_error (pos 7) read_event store store-IsLogged

get-append_event_example :
    ((append_event test_runtime none driver_error (pos 7) read_event store).0
      ≡ ok (next_seq read_event store))
    × (get_session_events test_runtime none "s1"
          (append_event test_runtime none driver_error (pos 7) read_event store).1
        ≡ (if "s1" == "s1"
            then ok (events_of "s1" store ++ next_row (pos 7) read_event store ∷ [])
            else get_session_events test_runtime none "s1" store))
get-append_event_example =
    get-append_event test_runtime driver_error (pos 7) read_event store store-IsLogged has_s1 "s1"

approved_is_not_pending : ◌≢◌ {A = String} "approved" "pending"
approved_is_not_pending h = ground (arith, eq_iff "approved" "pending")

approval_is_done :
    (resolve_escalation test_runtime none none (pos 9) "e1" "approved" "ok" store).0 ≡ ok tt
unfolding resolve_escalation truebearing.Base.any
approval_is_done = refl

resolve_escalation-once_example :
    (e : GoError) × (resolve_escalation test_runtime none none
        (pos 10)
        "e1"
        "rejected"
        "no"
        (resolve_escalation test_runtime none none (pos 9) "e1" "approved" "ok" store).1
      ≡ (err e, (resolve_escalation test_runtime none none (pos 9) "e1" "approved" "ok" store).1))
resolve_escalation-once_example =
    resolve_escalation-once test_runtime none (pos 9) "e1" "approved" "ok" store
      approved_is_not_pending approval_is_done none none (pos 10) "rejected" "no"

pending_is_not_approved : ◌≢◌ {A = String} "pending" "approved"
pending_is_not_approved h = ground (arith, eq_iff "pending" "approved")

only_approval_grants_example :
    (has_approved_escalation test_runtime none "s1" "write" "{}"
        (reject_escalation test_runtime none none (pos 9) "e1" "no" store).1
      ≡ has_approved_escalation test_runtime none "s1" "write" "{}" store)
    × (has_approved_escalation test_runtime none "s1" "write" "{}"
          (create_escalation test_runtime none driver_error (pos 9) pending store).1
        ≡ has_approved_escalation test_runtime none "s1" "write" "{}" store)
only_approval_grants_example =
    only_approval_grants test_runtime none none driver_error (pos 9) "e1" "no" pending store
      pending_is_not_approved "s1" "write" "{}"

-- A full cache of one entry.
abbrev small_cache : PolicyLru
small_cache = (set "f1" test_policy (new_policy_lru 1)).1

cache_fits : length small_cache.list ≤ small_cache.capacity
unfolding set new_policy_lru truebearing.Base.lookup truebearing.Proxy.PolicyCache.evict
    truebearing.Proxy.PolicyCache.set_at truebearing.Proxy.PolicyCache.push_front
    truebearing.Proxy.PolicyCache.drop_back
cache_fits = omega arith

cache_has_room : 0 < small_cache.capacity
unfolding set new_policy_lru truebearing.Base.lookup truebearing.Proxy.PolicyCache.evict
    truebearing.Proxy.PolicyCache.set_at truebearing.Proxy.PolicyCache.push_front
    truebearing.Proxy.PolicyCache.drop_back
cache_has_room = omega arith

get-set-bounded_example :
    (length (get "f2" small_cache).1.list ≤ small_cache.capacity)
    × (length (set "f2" test_policy small_cache).1.list ≤ small_cache.capacity)
get-set-bounded_example = get-set-bounded "f2" test_policy small_cache cache_has_room cache_fits

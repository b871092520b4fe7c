-- ===== src/Replay/Counts.antt =====
-- One record of a replay: how it counts, and that its event is stored.
use truebearing.Base.{
  ℕ, suc, ◌+◌, ◌≤◌, ◌<◌, ℤ, pos, ◌≡◌, ◌⊎◌, refl, ap, true, Option, none, some, List, [], ◌∷◌, ◌==◌,
  if◌then◌else◌, arith,
}
use truebearing.Engine.Budget
use truebearing.Engine.Pipeline.FirstFailure.{passes}
use truebearing.Engine.Types.{Action, action_string, allow, deny, escalate, shadow_deny, ToolCall}
use truebearing.Go.{err, GoError, ok, Result, Runtime}
use truebearing.Policy.{Policy}
use truebearing.Replay.{ReplayEntry, was_let}
use truebearing.Session.{Session}
use truebearing.Store.Events.{append_event, AppendStage, has_session}
use truebearing.Store.Rows.{SessionEvent, Store}

-- How many calls the replay allows.
unfoldable pub allowed : List ReplayEntry → ℕ
allowed [] = 0
allowed (entry ∷ entries) =
    let rest = allowed entries in if entry.new_decision == "allow" then suc rest else rest

-- From a count of calls on, the allowed ones stay within the limit.
abbrev pub IsWithin : ℕ → ℕ → List ReplayEntry → Type 0
IsWithin limit k entries = (allowed entries + k ≤ limit) ⊎ (allowed entries ≡ 0)

abbrev pub bump : Action → ℕ → ℕ
bump a k = if was_let a then k + 1 else k

pub bump_le : (a : Action) (k : ℕ) → bump a k ≤ k + 1
bump_le allow k = omega arith
bump_le deny k = omega arith
bump_le escalate k = omega arith
bump_le shadow_deny k = omega arith

pub IsWithin-entry :
    (limit k : ℕ) (a : Action) (entry : ReplayEntry) (entries : List ReplayEntry)
    → entry.new_decision ≡ action_string a
    → (a ≡ allow → k < limit)
    → IsWithin limit (bump a k) entries
    → IsWithin limit k (entry ∷ entries)
unfolding allowed
IsWithin-entry limit k allow entry entries e h w =
    ground (arith, h refl, w, ap (λ s. s == "allow") e)
IsWithin-entry limit k deny entry entries e h w = ground (arith, w, ap (λ s. s == "allow") e)
IsWithin-entry limit k escalate entry entries e h w = ground (arith, w, ap (λ s. s == "allow") e)
IsWithin-entry limit k shadow_deny entry entries e h w = ground (arith, w, ap (λ s. s == "allow") e)

-- Budget passes below the limit only.
pub budget-passes :
    (rt : Runtime) (call : ToolCall) (sess : Session) (pol : Policy) (k limit : ℕ)
    → sess.tool_call_count ≡ pos k
    → pol.budget.max_tool_calls ≡ pos limit
    → 0 < limit
    → passes (Budget.evaluate rt call sess pol) ≡ true
    → k < limit
unfolding Budget.evaluate
budget-passes rt call sess pol k limit c m z h = ground (arith, c, m, z, h)

abbrev pub Succeeds : {A : Type 0} → Result A → Type 0
Succeeds (ok a) = Unit
Succeeds (err e) = ⊥

pub append_event-Succeeds :
    (rt : Runtime) (fault : Option (AppendStage × GoError)) (refused : GoError) (now : ℤ)
    (ev : SessionEvent) (st : Store)
    → fault ≡ none
    → has_session ev.session_id st.sessions ≡ true
    → Succeeds (append_event rt fault refused now ev st).0
      × ((append_event rt fault refused now ev st).1.sessions ≡ st.sessions)
unfolding append_event
append_event-Succeeds rt none refused now ev st f h = (ground (arith, h), ground (arith, h))
append_event-Succeeds rt (some x) refused now ev st f h = absurd cc

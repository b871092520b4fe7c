-- ===== src/Engine/RateLimit/Counted.antt =====
-- What the rate limit of internal/engine/ratelimit.go counts in the event log of internal/store/events.go.
use truebearing.Base.{
  ℕ, ℤ, pos, int64, ◌<ℤ◌, leb_ℤ, String, ◌≡◌, ◌∙◌, ◌↔◌, sym, refl, Option, none, some, ◌==◌, ◌&&◌,
  ◌||◌, keep, length,
}
use mathlib.Core.Path.{subst}
use truebearing.Go.{GoError, ok, ok-injective, Runtime}
use truebearing.Engine.RateLimit.{evaluate, evaluate-IsUnderRate, IsTimeOf, limit_of, start}
use truebearing.Engine.StoreBackend.{ReadFaults, store_backend}
use truebearing.Engine.Types.{allowed, ToolCall, tool_policy}
use truebearing.Policy.{Policy, RateLimitPolicy}
use truebearing.Session.{Session}
use truebearing.Store.Events.{count_session_events_since}
use truebearing.Store.Rows.{SessionEvent, Store}

-- The calls of a tool in a session that were executed from a time on: those that were allowed, or denied
-- in shadow mode.
abbrev pub executed_since : String → String → ℤ → Store → ℕ
executed_since id tool since s = length (
    keep
      (λ (ev : SessionEvent).
        ev.session_id == id
        && (ev.tool_name == tool
            && ((ev.decision == "allow" || ev.decision == "shadow_deny")
                && leb_ℤ since ev.recorded_at)))
      s.session_events)

-- Under every limit for the tool, the executed calls of its window are fewer than `max_calls`.
abbrev pub IsWithinRate : ℤ → Store → ToolCall → Session → Policy → Type 0
IsWithinRate now s call sess pol =
    (rl : RateLimitPolicy)
    → limit_of (tool_policy pol call.tool_name) ≡ some rl
    → (t : ℤ) × IsTimeOf now call t
      × (pos (executed_since sess.id call.tool_name (int64 (start rl t)) s) <ℤ rl.max_calls)

module _ (rt : Runtime) (now : ℤ) (faults : ReadFaults) (s : Store) (call : ToolCall)
    (sess : Session) where
  counted_executed :
      (fault : Option GoError) (since : ℤ)
      → fault ≡ none
      → count_session_events_since rt fault sess.id call.tool_name since s
        ≡ ok (executed_since sess.id call.tool_name since s)
  unfolding count_session_events_since
  counted_executed none since h = refl
  counted_executed (some e) since h = absurd cc

  -- Over the store, if its count does not fail, RateLimit allows a call exactly if the tool has no limit, or
  -- the executed calls of the tool in the session are fewer than the limit, where those count that were
  -- recorded at the start of the window or later: `window_seconds` before the time that the call was
  -- requested at, or before now if it has no such time, computed in `int64` nanoseconds.
  pub evaluate-IsWithinRate :
      (pol : Policy)
      → faults.count ≡ none
      → (evaluate rt now (store_backend rt faults s) call sess pol ≡ ok allowed)
        ↔ IsWithinRate now s call sess pol
  unfolding store_backend
  evaluate-IsWithinRate pol works =
      let under = evaluate-IsUnderRate rt now (store_backend rt faults s) call sess pol in
      (
        λ h rl e.
            let (t, n, time, got, fewer) = under.0 h rl e in
            (
              t,
              time,
              subst (λ (m : ℕ). pos m <ℤ rl.max_calls)
                  (ok-injective
                    (sym got ∙ counted_executed faults.count (int64 (start rl t)) works))
                  fewer,
            ),
        λ h. under.1 (λ rl e.
            let (t, time, fewer) = h rl e in
            (
              t,
              executed_since sess.id call.tool_name (int64 (start rl t)) s,
              time,
              counted_executed faults.count (int64 (start rl t)) works,
              fewer,
            )),
      )

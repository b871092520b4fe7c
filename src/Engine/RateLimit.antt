-- ===== src/Engine/RateLimit.antt =====
-- internal/engine/ratelimit.go: at most so many executed calls in a rolling window.
pub mod Counted
use truebearing.Base.{
  ℕ, ℤ, pos, neg, int64, ◌+ℤ◌, ◌*ℤ◌, ◌<ℤ◌, leb_ℤ, eqb_ℤ, eqb_ℤ_iff, ◌⊎◌, inl, inr, ap, sym, ◌∙◌,
  ◌≢◌, Bool-cases, ◌≡◌, ◌↔◌, refl, Option, none, some, [], ◌∷◌, arith, if◌then◌else◌,
}
use truebearing.Go.{Runtime, Result, ok, err, text, wrapf}
use truebearing.Engine.Types.{
  deny, allowed, refusal, Decision, Evaluator, ToolCall, QueryBackend, tool_policy, zero_time,
}
use truebearing.Engine.Outcome.{Answers}
use truebearing.Policy.{Policy, ToolPolicy, RateLimitPolicy}
use truebearing.Session.{Session}

abbrev pub limit_of : Option ToolPolicy → Option RateLimitPolicy
limit_of none = none
limit_of (some tp) = tp.rate_limit

-- `-time.Duration(rl.WindowSeconds) * time.Second`, in `int64`.
unfoldable pub window : RateLimitPolicy → ℤ
window rl = int64 (int64 (neg rl.window_seconds) *ℤ pos 1000000000)

-- The time of the call: its own, or the clock's if it has none.
abbrev pub IsTimeOf : ℤ → ToolCall → ℤ → Type 0
IsTimeOf now call t =
    ((call.requested_at ≢ zero_time) × (t ≡ call.requested_at))
    ⊎ ((call.requested_at ≡ zero_time) × (t ≡ now))

-- The time `window_seconds` before it, in `int64`.
abbrev pub start : RateLimitPolicy → ℤ → ℤ
start rl t = t +ℤ int64 (int64 (neg rl.window_seconds) *ℤ pos 1000000000)

module _ (rt : Runtime) where
  judge_rate : Result ℕ → RateLimitPolicy → ToolCall → Session → Result Decision
  judge_rate (err e) rl call sess = err (
      wrapf
        ("checking rate limit for tool "
          ∷ rt.quote call.tool_name
          ∷ " in session "
          ∷ rt.quote sess.id
          ∷ ": "
          ∷ [])
        e)
  judge_rate (ok count) rl call sess =
      if leb_ℤ rl.max_calls (pos count)
      then ok (
          refusal deny
            (text (
              "rate_limit: "
              ∷ rt.quote call.tool_name
              ∷ " has been called "
              ∷ rt.show_int (pos count)
              ∷ " time(s) in the past "
              ∷ rt.show_int rl.window_seconds
              ∷ " second(s); limit is "
              ∷ rt.show_int rl.max_calls
              ∷ " call(s) per window"
              ∷ []))
            (text ("rate_limit." ∷ call.tool_name ∷ [])) "rate_limit_exceeded" []
            (text (
              "Tool "
              ∷ rt.quote call.tool_name
              ∷ " has exceeded its call frequency limit. Wait "
              ∷ rt.show_int rl.window_seconds
              ∷ " second(s) for the window to roll and retry."
              ∷ [])))
      else ok allowed

  -- `now` is what `time.Now` returns.
  module _ (now : ℤ) (store : QueryBackend) where
    -- `ref`, the reference time of the window
    abbrev pub reference : ToolCall → ℤ
    reference call = if eqb_ℤ call.requested_at zero_time then now else call.requested_at

    abbrev pub counted : RateLimitPolicy → ToolCall → Session → Result ℕ
    counted rl call sess =
        store.count_session_events_since sess.id call.tool_name (reference call +ℤ window rl)

    check_rate : Option RateLimitPolicy → ToolCall → Session → Result Decision
    unfolding judge_rate
    check_rate none call sess = ok allowed
    check_rate (some rl) call sess = judge_rate (counted rl call sess) rl call sess

    unfoldable pub evaluate : Evaluator
    unfolding check_rate
    evaluate call sess pol = check_rate (limit_of (tool_policy pol call.tool_name)) call sess

    pub evaluate-Answers : Answers evaluate
    unfolding evaluate
    evaluate-Answers call sess pol = ground arith

    reference-IsTimeOf : (call : ToolCall) → IsTimeOf now call (reference call)
    reference-IsTimeOf call = elim (Bool-cases (eqb_ℤ call.requested_at zero_time)) [
      | inl h ↦ inr ((eqb_ℤ_iff call.requested_at zero_time).0 h, rw h refl)
      | inr h ↦ inl (λ e. ground (arith, h, (eqb_ℤ_iff call.requested_at zero_time).1 e), rw h refl)
    ]

    -- Under every limit for the tool, the calls of the tool that the store counts in the session, from
    -- the start of the window on, are fewer than `max_calls`.
    abbrev pub IsUnderRate : ToolCall → Session → Policy → Type 0
    IsUnderRate call sess pol =
        (rl : RateLimitPolicy)
        → limit_of (tool_policy pol call.tool_name) ≡ some rl
        → (t : ℤ) × (n : ℕ) × IsTimeOf now call t
          × (store.count_session_events_since sess.id call.tool_name (start rl t) ≡ ok n)
          × (pos n <ℤ rl.max_calls)

    -- There is one time.
    time_once : (call : ToolCall) (t : ℤ) → IsTimeOf now call t → t ≡ reference call
    time_once call t (inl (n, e)) = elim (Bool-cases (eqb_ℤ call.requested_at zero_time)) [
      | inl h ↦ absurd (n ((eqb_ℤ_iff call.requested_at zero_time).0 h))
      | inr h ↦ rw h e
    ]
    time_once call t (inr (z, e)) = rw ((eqb_ℤ_iff call.requested_at zero_time).1 z) e

    check_rate_under :
        (call : ToolCall) (sess : Session) (limit : Option RateLimitPolicy) (rl : RateLimitPolicy)
        → check_rate limit call sess ≡ ok allowed
        → limit ≡ some rl
        → (n : ℕ) × (counted rl call sess ≡ ok n) × (pos n <ℤ rl.max_calls)
    unfolding check_rate
    check_rate_under call sess limit rl h e = ground arith

    check_rate_of :
        (call : ToolCall) (sess : Session) (limit : Option RateLimitPolicy)
        → ((rl : RateLimitPolicy)
            → limit ≡ some rl
            → (n : ℕ) × (counted rl call sess ≡ ok n) × (pos n <ℤ rl.max_calls))
        → check_rate limit call sess ≡ ok allowed
    unfolding check_rate
    check_rate_of call sess none h = refl
    check_rate_of call sess (some rl) h = let (n, got, under) = h rl refl in ground arith

    -- RateLimit allows a call exactly if the call is under the rate.
    pub evaluate-IsUnderRate :
        (call : ToolCall) (sess : Session) (pol : Policy)
        → (evaluate call sess pol ≡ ok allowed) ↔ IsUnderRate call sess pol
    unfolding evaluate window
    evaluate-IsUnderRate call sess pol =
        let limit = limit_of (tool_policy pol call.tool_name) in
        (
          λ h rl e.
              let (n, got, under) = check_rate_under call sess limit rl h e in
              (reference call, n, reference-IsTimeOf call, got, under),
          λ h. check_rate_of call sess limit (λ rl e.
              let (t, n, time, got, under) = h rl e in
              (n, ap (since_of rl) (sym (time_once call t time)) ∙ got, under)),
        )
      where
        since_of : RateLimitPolicy → ℤ → Result ℕ
        since_of rl t = store.count_session_events_since sess.id call.tool_name (start rl t)

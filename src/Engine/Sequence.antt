-- ===== src/Engine/Sequence.antt =====
-- internal/engine/sequence.go: the predicates on the order of calls. All violations are collected
-- before the evaluator answers. The theorems are in the child modules.

pub mod Exact
use mathlib.Core.List.{map}
use truebearing.Base.{
  ℕ, ℤ, pos, ltb_ℤ, String, Bool, true, false, not, ◌&&◌, Option, none, some, List, [], ◌∷◌, ◌++◌,
  if◌then◌else◌, keep, is_empty, arith,
}
use truebearing.Go.{Runtime, Result, ok, err, text, wrapf}
use truebearing.Engine.Types.{
  deny, allowed, refusal, Decision, Evaluator, ToolCall, QueryBackend, SessionEventEntry,
  tool_policy,
}
use truebearing.Engine.History.{History, freq_of, history_of}
use truebearing.Engine.Outcome.{Answers}
use truebearing.Policy.{Policy, ToolPolicy, SequencePolicy, PriorNRule}
use truebearing.Session.{Session}

-- `len(seq.OnlyAfter) == 0 && len(seq.NeverAfter) == 0 && seq.RequiresPriorN == nil`
unfoldable pub has_no_predicates : SequencePolicy → Bool
has_no_predicates seq =
    is_empty seq.only_after
    && is_empty seq.never_after
    && elim seq.requires_prior_n [ none ↦ true | some r ↦ false ]

unfoldable pub missing_only_after : History → SequencePolicy → List String
missing_only_after history seq = keep (λ t. not (freq_of history t).seen) seq.only_after

unfoldable pub blocked_by_never_after : History → SequencePolicy → List String
blocked_by_never_after history seq = keep (λ t. (freq_of history t).seen) seq.never_after

missing_prior : History → Option PriorNRule → List String
missing_prior history none = []
missing_prior history (some rule) =
    if ltb_ℤ (pos (freq_of history rule.tool).count) rule.count then rule.tool ∷ [] else []

unfoldable pub missing_requires_prior_n : History → SequencePolicy → List String
unfolding missing_prior
missing_requires_prior_n history seq = missing_prior history seq.requires_prior_n

module _ (rt : Runtime) where
  only_after_violation : ToolCall → String → String
  only_after_violation call required = text (
      "sequence.only_after: "
      ∷ rt.quote required
      ∷ " has not been called in this session (required before "
      ∷ rt.quote call.tool_name
      ∷ ")"
      ∷ [])

  never_after_violation : ToolCall → String → String
  never_after_violation call forbidden = text (
      "sequence.never_after: "
      ∷ rt.quote forbidden
      ∷ " was already called in this session and permanently blocks "
      ∷ rt.quote call.tool_name
      ∷ [])

  prior_n_violation : History → Option PriorNRule → ToolCall → String → String
  prior_n_violation history none call tool = ""
  prior_n_violation history (some rule) call tool = text (
      "sequence.requires_prior_n: "
      ∷ rt.quote tool
      ∷ " must be called at least "
      ∷ rt.show_int rule.count
      ∷ " time(s) before "
      ∷ rt.quote call.tool_name
      ∷ " ("
      ∷ rt.show_int (pos (freq_of history tool).count)
      ∷ " call(s) recorded)"
      ∷ [])

  unfoldable pub violations : History → SequencePolicy → ToolCall → List String
  unfolding only_after_violation never_after_violation prior_n_violation
  violations history seq call =
      map (only_after_violation call) (missing_only_after history seq)
      ++ map (never_after_violation call) (blocked_by_never_after history seq)
      ++ map (prior_n_violation history seq.requires_prior_n call)
          (missing_requires_prior_n history seq)

  -- The `switch` that builds the feedback, and the decision around it.
  unfoldable pub deny_sequence :
      List String → List String → List String → String → ToolCall → Decision
  deny_sequence (t ∷ ts) blocked missing_n reason call =
      refusal deny reason "sequence" "sequence_only_after" (t ∷ ts) (
        text (
          "Call "
          ∷ rt.join (t ∷ ts) ", then "
          ∷ " first, then retry "
          ∷ rt.quote call.tool_name
          ∷ "."
          ∷ []))
  deny_sequence [] (b ∷ bs) missing_n reason call =
      refusal deny reason "sequence" "sequence_never_after" [] (
        text (
          "Tool "
          ∷ rt.quote call.tool_name
          ∷ " cannot be called after "
          ∷ rt.join (b ∷ bs) ", "
          ∷ " has run in this session. Start a new session to retry."
          ∷ []))
  deny_sequence [] [] missing_n reason call =
      refusal deny reason "sequence" "sequence_requires_prior_n" missing_n (
        text (
          "Call "
          ∷ rt.join missing_n ", "
          ∷ " the required number of times first, then retry "
          ∷ rt.quote call.tool_name
          ∷ "."
          ∷ []))

  unfoldable pub judge_history : History → SequencePolicy → ToolCall → Decision
  judge_history history seq call =
      let found = violations history seq call in
      if is_empty found
      then allowed
      else deny_sequence (missing_only_after history seq) (blocked_by_never_after history seq)
          (missing_requires_prior_n history seq) (rt.join found "; ") call

  judge_events :
      Result (List SessionEventEntry) → SequencePolicy → ToolCall → Session → Result Decision
  judge_events (err e) seq call sess = err (
      wrapf
        ("fetching session events for sequence check on session " ∷ rt.quote sess.id ∷ ": " ∷ []) e)
  judge_events (ok events) seq call sess = ok (judge_history (history_of events) seq call)

  module _ (store : QueryBackend) where
    check_sequence : Option ToolPolicy → ToolCall → Session → Result Decision
    unfolding judge_events
    check_sequence none call sess = ok allowed
    check_sequence (some tp) call sess =
        if has_no_predicates tp.sequence
        then ok allowed
        else judge_events (store.get_session_events sess.id) tp.sequence call sess

    unfoldable pub evaluate : Evaluator
    unfolding check_sequence
    evaluate call sess pol = check_sequence (tool_policy pol call.tool_name) call sess

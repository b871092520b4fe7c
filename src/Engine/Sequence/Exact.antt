-- ===== src/Engine/Sequence/Exact.antt =====
-- The sequence evaluator against the tools that a session has executed.
use truebearing.Base.{
  pos, ◌≤ℤ◌, String, ◌≡◌, ◌↔◌, ◌⊎◌, inl, inr, refl, ap, true, false, not, Option, none, some, List,
  if◌then◌else◌, keep, keep_congr, is_empty, is_empty-append, is_empty-map, is_empty-keep_iff,
  arith, Mem, contains, contains_iff, contains-false_iff, count, Bool-cases,
}
use truebearing.Go.{Runtime, Result, ok, err}
use truebearing.Engine.Types.{allowed, ToolCall, QueryBackend, SessionEventEntry, tool_policy}
use truebearing.Engine.History.{History, history_of, history_of_lem, executed}
use truebearing.Engine.Outcome.{Answers, IsAnswer}
use truebearing.Engine.Sequence.{
  has_no_predicates, missing_only_after, blocked_by_never_after, missing_prior,
  missing_requires_prior_n, violations, deny_sequence, judge_history, judge_events, check_sequence,
  evaluate,
}
use truebearing.Policy.{Policy, ToolPolicy, SequencePolicy, PriorNRule}
use truebearing.Session.{Session}

-- What the three predicates ask of the executed tools.
pub record Meets (seq : SequencePolicy) (tools : List String) : Type 0 where
  pub only_after : (t : String) → Mem t seq.only_after → Mem t tools
  pub never_after : (t : String) → Mem t seq.never_after → ¬ Mem t tools
  pub prior_n :
      (rule : PriorNRule)
      → seq.requires_prior_n ≡ some rule
      → rule.count ≤ℤ pos (count tools rule.tool)

-- The lists of the feedback, over the executed tools.
pub missing-executed :
    (events : List SessionEventEntry) (seq : SequencePolicy)
    → missing_only_after (history_of events) seq
      ≡ keep (λ t. not (contains (executed events) t)) seq.only_after
unfolding missing_only_after
missing-executed events seq =
    keep_congr _ _ seq.only_after (λ t. ap not (history_of_lem events t).0)

pub blocked-executed :
    (events : List SessionEventEntry) (seq : SequencePolicy)
    → blocked_by_never_after (history_of events) seq
      ≡ keep (contains (executed events)) seq.never_after
unfolding blocked_by_never_after
blocked-executed events seq = keep_congr _ _ seq.never_after (λ t. (history_of_lem events t).0)

module _ (rt : Runtime) where
  is_empty-violations :
      (h : History) (seq : SequencePolicy) (call : ToolCall)
      → is_empty (violations rt h seq call) ≡ (
          if is_empty (missing_only_after h seq)
          then if is_empty (blocked_by_never_after h seq)
            then is_empty (missing_requires_prior_n h seq)
            else false
          else false)
  unfolding violations
  is_empty-violations h seq call = simp (is_empty-append, is_empty-map) (ground arith)

  judge-allowed :
      (h : History) (seq : SequencePolicy) (call : ToolCall)
      → judge_history rt h seq call ≡ allowed
      → is_empty (violations rt h seq call) ≡ true
  unfolding judge_history deny_sequence
  judge-allowed h seq call e = ground arith

  prior_n_met :
      (events : List SessionEventEntry) (seq : SequencePolicy) (rule : PriorNRule)
      → is_empty (missing_requires_prior_n (history_of events) seq) ≡ true
      → seq.requires_prior_n ≡ some rule
      → rule.count ≤ℤ pos (count (executed events) rule.tool)
  unfolding missing_requires_prior_n
  prior_n_met events seq rule h e = ground (arith, history_of_lem events rule.tool)

  met_prior_n :
      (events : List SessionEventEntry) (o : Option PriorNRule)
      → ((rule : PriorNRule)
          → o ≡ some rule
          → rule.count ≤ℤ pos (count (executed events) rule.tool))
      → is_empty (missing_prior (history_of events) o) ≡ true
  unfolding missing_prior
  met_prior_n events none h = refl
  met_prior_n events (some rule) h = ground (arith, h rule refl, history_of_lem events rule.tool)

  judge_history-allowed :
      (events : List SessionEventEntry) (seq : SequencePolicy) (call : ToolCall)
      → judge_history rt (history_of events) seq call ≡ allowed
      → Meets seq (executed events)
  judge_history-allowed events seq call e =
      let h = history_of events in
      let all = judge-allowed h seq call e in
      let split = is_empty-violations h seq call in
      record {
        only_after = λ t m. (contains_iff (executed events) t).0 (
            ground (
              arith,
              (is_empty-keep_iff (λ u. not (contains (executed events) u)) seq.only_after).0
                  (rw (← missing-executed events seq) (ground (arith, all, split))) t m,
            ));
        never_after = λ t m. (contains-false_iff (executed events) t).0 (
            (is_empty-keep_iff (contains (executed events)) seq.never_after).0
              (rw (← blocked-executed events seq) (ground (arith, all, split))) t m);
        prior_n = λ rule p. prior_n_met events seq rule (ground (arith, all, split)) p;
      }

  Meets-allowed :
      (events : List SessionEventEntry) (seq : SequencePolicy) (call : ToolCall)
      → Meets seq (executed events)
      → judge_history rt (history_of events) seq call ≡ allowed
  unfolding judge_history missing_requires_prior_n
  Meets-allowed events seq call m =
      let h = history_of events in
      let no_missing : is_empty (missing_only_after h seq) ≡ true =
        rw (missing-executed events seq) (
          (is_empty-keep_iff _ seq.only_after).1
            (λ t k. ap not ((contains_iff (executed events) t).1 (m.only_after t k)))) in
      let no_blocked : is_empty (blocked_by_never_after h seq) ≡ true =
        rw (blocked-executed events seq) (
          (is_empty-keep_iff _ seq.never_after).1
            (λ t k. (contains-false_iff (executed events) t).1 (m.never_after t k))) in
      ground (
        arith,
        is_empty-violations h seq call,
        no_missing,
        no_blocked,
        met_prior_n events seq.requires_prior_n m.prior_n,
      )

  -- The history passes exactly if the executed tools meet the three predicates.
  pub judge_history-allowed_iff :
      (events : List SessionEventEntry) (seq : SequencePolicy) (call : ToolCall)
      → (judge_history rt (history_of events) seq call ≡ allowed) ↔ Meets seq (executed events)
  judge_history-allowed_iff events seq call =
      (judge_history-allowed events seq call, Meets-allowed events seq call)

  judge_history-IsAnswer :
      (h : History) (seq : SequencePolicy) (call : ToolCall)
      → IsAnswer (ok (judge_history rt h seq call))
  unfolding judge_history deny_sequence
  judge_history-IsAnswer h seq call = ground arith

  module _ (store : QueryBackend) where
    check_sequence-IsAnswer :
        (o : Option ToolPolicy) (call : ToolCall) (sess : Session)
        → IsAnswer (check_sequence rt store o call sess)
    unfolding check_sequence judge_events
    check_sequence-IsAnswer none call sess = inl refl
    check_sequence-IsAnswer (some tp) call sess =
        elim (Bool-cases (has_no_predicates tp.sequence)) [
          | inl e ↦ rw e (inl refl)
          | inr e ↦ rw e (judge_answer (store.get_session_events sess.id))
        ]
      where
        judge_answer :
            (r : Result (List SessionEventEntry))
            → IsAnswer (judge_events rt r tp.sequence call sess)
        judge_answer (err e) = tt
        judge_answer (ok events) = judge_history-IsAnswer (history_of events) tp.sequence call

    pub evaluate-Answers : Answers (evaluate rt store)
    unfolding evaluate
    evaluate-Answers call sess pol =
        check_sequence-IsAnswer (tool_policy pol call.tool_name) call sess

    -- No sequence predicate applies, or the executed tools of the session meet them.
    abbrev pub IsInSequence : ToolCall → Session → Policy → Type 0
    IsInSequence call sess pol =
        (tp : ToolPolicy)
        → tool_policy pol call.tool_name ≡ some tp
        → (has_no_predicates tp.sequence ≡ true)
          ⊎ ((events : List SessionEventEntry) × (store.get_session_events sess.id ≡ ok events)
              × Meets tp.sequence (executed events))

    check_events :
        (r : Result (List SessionEventEntry)) (seq : SequencePolicy) (call : ToolCall)
        (sess : Session)
        → judge_events rt r seq call sess ≡ ok allowed
        → (events : List SessionEventEntry) × (r ≡ ok events) × Meets seq (executed events)
    unfolding judge_events
    check_events (err e) seq call sess h = cc
    check_events (ok events) seq call sess h =
        (events, refl, judge_history-allowed events seq call (cc))

    check_sequence-allowed :
        (o : Option ToolPolicy) (call : ToolCall) (sess : Session) (tp : ToolPolicy)
        → check_sequence rt store o call sess ≡ ok allowed
        → o ≡ some tp
        → (has_no_predicates tp.sequence ≡ true)
          ⊎ ((events : List SessionEventEntry) × (store.get_session_events sess.id ≡ ok events)
              × Meets tp.sequence (executed events))
    unfolding check_sequence
    check_sequence-allowed o call sess tp h e = elim (Bool-cases (has_no_predicates tp.sequence)) [
      | inl q ↦ inl q
      | inr q ↦
          inr (check_events (store.get_session_events sess.id) tp.sequence call sess (ground arith))
    ]

    allowed-check_sequence :
        (o : Option ToolPolicy) (call : ToolCall) (sess : Session)
        → ((tp : ToolPolicy)
            → o ≡ some tp
            → (has_no_predicates tp.sequence ≡ true)
              ⊎ ((events : List SessionEventEntry) × (store.get_session_events sess.id ≡ ok events)
                  × Meets tp.sequence (executed events)))
        → check_sequence rt store o call sess ≡ ok allowed
    unfolding check_sequence judge_events
    allowed-check_sequence none call sess h = refl
    allowed-check_sequence (some tp) call sess h = elim (h tp refl) [
      | inl q ↦ rw q
      | inr (events, got, m) ↦ ground (arith, Meets-allowed events tp.sequence call m)
    ]

    -- Sequence allows a call exactly if the tool sets no predicate, or the history could be read and meets
    -- them all: every only_after tool was executed, no never_after tool was, and requires_prior_n was met.
    pub evaluate-IsInSequence :
        (call : ToolCall) (sess : Session) (pol : Policy)
        → (evaluate rt store call sess pol ≡ ok allowed) ↔ IsInSequence call sess pol
    unfolding evaluate
    evaluate-IsInSequence call sess pol =
        let found = tool_policy pol call.tool_name in
        (
          λ h tp e. check_sequence-allowed found call sess tp h e,
          allowed-check_sequence found call sess,
        )

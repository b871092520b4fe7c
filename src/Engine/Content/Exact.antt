-- ===== src/Engine/Content/Exact.antt =====
-- The content evaluator: when it lets a call pass, in the modes "any" and "all".
use mathlib.Core.Option.{some-injective}
use mathlib.Core.Path.{subst}
use truebearing.Base.{
  String, ◌≡◌, ◌↔◌, ◌⊎◌, inl, inr, refl, Bool, true, false, Option, none, some, List, [], ◌∷◌, ◌++◌,
  arith, eq_iff, is_empty, All,
}
use truebearing.Go.{Runtime, Result, ok, err}
use truebearing.Engine.Types.{allowed, ToolCall, tool_policy}
use truebearing.Engine.Outcome.{Answers, IsAnswer}
use truebearing.Engine.Content.{
  eval_content_predicate, step_all, matched_reason, eval_never_when_any, all_from,
  eval_never_when_all, check_content, evaluate,
}
use truebearing.Policy.{Policy, ToolPolicy, ContentPredicate, content_match_any, content_match_all}
use truebearing.Session.{Session}

module _ (rt : Runtime) (call : ToolCall) where
  -- Every predicate can be evaluated, and none fires.
  abbrev pub NoneFires : List ContentPredicate → Type 0
  NoneFires preds = All (λ p. eval_content_predicate rt call p ≡ ok false) preds

  -- A predicate does not fire, and those before it do.
  abbrev pub SomeMisses : List ContentPredicate → Type 0
  SomeMisses [] = ⊥
  SomeMisses (p ∷ ps) =
      (eval_content_predicate rt call p ≡ ok false)
      ⊎ ((eval_content_predicate rt call p ≡ ok true) × SomeMisses ps)

  any-allowed_iff :
      (preds : List ContentPredicate)
      → (eval_never_when_any rt call preds ≡ ok allowed) ↔ NoneFires preds
  unfolding eval_never_when_any
  any-allowed_iff [] = (λ h. tt, λ h. refl)
  any-allowed_iff (p ∷ ps) = (
    λ h. (ground arith, (any-allowed_iff ps).0 (ground arith)),
    λ h. ground (arith, (any-allowed_iff ps).1 h.1),
  )

  all_from-allowed_iff :
      (reasons : List String) (preds : List ContentPredicate)
      → (all_from rt reasons call preds ≡ ok allowed) ↔ SomeMisses preds
  unfolding all_from
  all_from-allowed_iff reasons [] = (λ h. cc, λ h. absurd h)
  all_from-allowed_iff reasons (p ∷ ps) =
      let rest = all_from-allowed_iff (reasons ++ matched_reason rt p ∷ []) ps in
      (
        λ h. split (eval_content_predicate rt call p) refl h rest.0,
        λ h. elim h [ inl miss ↦ ground arith | inr (hit, more) ↦ ground (arith, rest.1 more) ],
      )
    where
      split :
          (r : Result Bool)
          → eval_content_predicate rt call p ≡ r
          → step_all rt
              (eval_content_predicate rt call p)
              call
              p
              (all_from rt (reasons ++ matched_reason rt p ∷ []) call ps)
            ≡ ok allowed
          → (all_from rt (reasons ++ matched_reason rt p ∷ []) call ps ≡ ok allowed → SomeMisses ps)
          → SomeMisses (p ∷ ps)
      split (err e) q h k = ground arith
      split (ok true) q h k = inr (q, k (ground arith))
      split (ok false) q h k = inl q

  any-IsAnswer : (preds : List ContentPredicate) → IsAnswer (eval_never_when_any rt call preds)
  unfolding eval_never_when_any
  any-IsAnswer [] = inl refl
  any-IsAnswer (p ∷ ps) = ground (arith, any-IsAnswer ps)

  all-IsAnswer :
      (reasons : List String) (preds : List ContentPredicate)
      → IsAnswer (all_from rt reasons call preds)
  unfolding all_from
  all-IsAnswer reasons [] = inr refl
  all-IsAnswer reasons (p ∷ ps) =
      ground (arith, all-IsAnswer (reasons ++ matched_reason rt p ∷ []) ps)

  -- How the predicates of a tool let the call pass, in its match mode.
  abbrev pub IsClear : ToolPolicy → Type 0
  IsClear tp =
      (is_empty tp.never_when ≡ true)
      ⊎ (((tp.never_when_match ≡ "") ⊎ (tp.never_when_match ≡ content_match_any))
          × NoneFires tp.never_when)
      ⊎ ((tp.never_when_match ≡ content_match_all) × SomeMisses tp.never_when)

  check_content-IsAnswer : (o : Option ToolPolicy) → IsAnswer (check_content rt o call)
  unfolding check_content eval_never_when_all
  check_content-IsAnswer none = inl refl
  check_content-IsAnswer (some tp) =
      ground (arith, any-IsAnswer tp.never_when, all-IsAnswer [] tp.never_when)

  cleared : (tp : ToolPolicy) → check_content rt (some tp) call ≡ ok allowed → IsClear tp
  unfolding check_content eval_never_when_all
  cleared tp h = ground (
    arith,
    eq_iff tp.never_when_match "",
    eq_iff tp.never_when_match content_match_any,
    eq_iff tp.never_when_match content_match_all,
    eq_iff "" content_match_all,
    eq_iff content_match_any content_match_all,
    any-allowed_iff tp.never_when,
    all_from-allowed_iff [] tp.never_when,
  )

  clear : (tp : ToolPolicy) → IsClear tp → check_content rt (some tp) call ≡ ok allowed
  unfolding check_content eval_never_when_all
  clear tp h = ground (
    arith,
    eq_iff tp.never_when_match "",
    eq_iff tp.never_when_match content_match_any,
    eq_iff tp.never_when_match content_match_all,
    eq_iff "" content_match_all,
    eq_iff content_match_any content_match_all,
    any-allowed_iff tp.never_when,
    all_from-allowed_iff [] tp.never_when,
  )

  check_content_iff :
      (o : Option ToolPolicy)
      → (check_content rt o call ≡ ok allowed) ↔ ((tp : ToolPolicy) → o ≡ some tp → IsClear tp)
  unfolding check_content
  check_content_iff none = (λ h tp e. cc, λ h. refl)
  check_content_iff (some tp) =
      (λ h found e. subst IsClear (some-injective _ _ e) (cleared tp h), λ h. clear tp (h tp refl))

module _ (rt : Runtime) where
  pub evaluate-Answers : Answers (evaluate rt)
  unfolding evaluate
  evaluate-Answers call sess pol = check_content-IsAnswer rt call (tool_policy pol call.tool_name)

  -- Content allows a call exactly if the tool's never_when predicates are clear: there are none, or with
  -- no mode or mode "any" every predicate is decided and none fires, or with mode "all" some predicate
  -- is decided not to fire before any predicate fails.
  pub evaluate-IsClear :
      (call : ToolCall) (sess : Session) (pol : Policy)
      → (evaluate rt call sess pol ≡ ok allowed)
        ↔ ((tp : ToolPolicy) → tool_policy pol call.tool_name ≡ some tp → IsClear rt call tp)
  unfolding evaluate
  evaluate-IsClear call sess pol = check_content_iff rt call (tool_policy pol call.tool_name)

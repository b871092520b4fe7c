-- ===== src/Engine/Content/Linted.antt =====
-- The content evaluator on a policy that the linter of internal/policy/lint.go passes.
use mathlib.Core.Option.{some-injective}
use mathlib.Core.Path.{subst}
use truebearing.Base.{
  String, ◌≡◌, ◌⊎◌, inl, inr, sym, Bool, true, false, some, List, [], ◌∷◌, ◌++◌, ◌==◌, arith,
  eq_iff, All, lookup, contains, Bool-cases,
}
use truebearing.Go.{Runtime, Result, ok, err}
use truebearing.Engine.Types.{Decision, ToolCall, tool_policy}
use truebearing.Engine.Content.{
  all_from, check_content, eval_content_predicate, eval_never_when_all, eval_never_when_any,
  evaluate, fires, matched_reason, match_compiled, pattern_of, step_all, step_any,
}
use truebearing.Policy.{ContentPredicate, content_match_all, content_match_any, Policy, ToolPolicy}
use truebearing.Policy.Lint.{lint}
use truebearing.Policy.Lint.Results.{has_error}
use truebearing.Policy.Lint.Rules.{Compiles, HasPattern, IsKnownPredicate}
use truebearing.Policy.Lint.Content.{valid_content_operators}
use truebearing.Policy.Lint.Sound.{lint-IsSound}
use truebearing.Session.{Session}

-- The result is not an error.
abbrev pub IsOk : {A : Type 0} → Result A → Type 0
IsOk (ok a) = Unit
IsOk (err e) = ⊥

lookup-All :
    {V : Type 0} (P : V → Type 0) (items : List (String × V)) (k : String) (v : V)
    → All (λ item. P item.1) items
    → lookup items k ≡ some v
    → P v
unfolding lookup
lookup-All P [] k v all e = absurd (ground (arith, e))
lookup-All P ((j, w) ∷ items) k v all e = elim (Bool-cases (j == k)) [
  | inl q ↦ subst P (some-injective _ _ (ground (arith, q, e))) all.0
  | inr q ↦ lookup-All P items k v all.1 (ground (arith, q, e))
]

module _ (rt : Runtime) (p : Policy) (call : ToolCall) where
  compiled-IsOk :
      (r : Result (String → Bool)) (pred : ContentPredicate) (arg : String)
      → Compiles r
      → IsOk (match_compiled rt r pred arg)
  unfolding match_compiled
  compiled-IsOk (ok re) pred arg h = tt
  compiled-IsOk (err e) pred arg h = absurd h

  known :
      (op : String)
      → contains valid_content_operators op ≡ true
      → (op == "is_external" ≡ true)
        ⊎ (op == "contains_pattern" ≡ true)
        ⊎ (op == "equals" ≡ true)
        ⊎ (op == "not_equals" ≡ true)
  unfolding contains
  known op h = ground (
    arith,
    h,
    eq_iff "is_external" op,
    eq_iff op "is_external",
    eq_iff "contains_pattern" op,
    eq_iff op "contains_pattern",
    eq_iff "equals" op,
    eq_iff op "equals",
    eq_iff "not_equals" op,
    eq_iff op "not_equals",
  )

  fires-IsOk :
      (arg : String) (pred : ContentPredicate)
      → IsKnownPredicate rt p pred
      → HasPattern rt p pred
      → IsOk (fires rt arg pred)
  unfolding fires
  fires-IsOk arg pred k h = ground (
    arith,
    known pred.operator k,
    compiled-IsOk (rt.regexp_compile (pattern_of rt pred)) pred arg,
    h,
  )

  abbrev pub IsPresent : ContentPredicate → Type 0
  IsPresent pred = (rt.gjson_get call.arguments pred.argument).exists ≡ true

  eval-IsOk :
      (pred : ContentPredicate)
      → IsKnownPredicate rt p pred
      → HasPattern rt p pred
      → IsPresent pred
      → IsOk (eval_content_predicate rt call pred)
  unfolding eval_content_predicate
  eval-IsOk pred k h e =
      ground (arith, e, fires-IsOk (rt.gjson_get call.arguments pred.argument).text pred k h)

  step_any-IsOk :
      (r : Result Bool) (pred : ContentPredicate) (later : Result Decision)
      → IsOk r
      → IsOk later
      → IsOk (step_any rt r call pred later)
  unfolding step_any
  step_any-IsOk (ok true) pred later h k = tt
  step_any-IsOk (ok false) pred later h k = k
  step_any-IsOk (err e) pred later h k = absurd h

  step_all-IsOk :
      (r : Result Bool) (pred : ContentPredicate) (later : Result Decision)
      → IsOk r
      → IsOk later
      → IsOk (step_all rt r call pred later)
  unfolding step_all
  step_all-IsOk (ok true) pred later h k = k
  step_all-IsOk (ok false) pred later h k = tt
  step_all-IsOk (err e) pred later h k = absurd h

  any-IsOk :
      (preds : List ContentPredicate)
      → All (IsKnownPredicate rt p) preds
      → All (HasPattern rt p) preds
      → All IsPresent preds
      → IsOk (eval_never_when_any rt call preds)
  unfolding eval_never_when_any
  any-IsOk [] k h e = tt
  any-IsOk (pred ∷ preds) k h e =
      step_any-IsOk (eval_content_predicate rt call pred) pred (eval_never_when_any rt call preds)
        (eval-IsOk pred k.0 h.0 e.0) (any-IsOk preds k.1 h.1 e.1)

  all_from-IsOk :
      (reasons : List String) (preds : List ContentPredicate)
      → All (IsKnownPredicate rt p) preds
      → All (HasPattern rt p) preds
      → All IsPresent preds
      → IsOk (all_from rt reasons call preds)
  unfolding all_from
  all_from-IsOk reasons [] k h e = tt
  all_from-IsOk reasons (pred ∷ preds) k h e =
      step_all-IsOk (eval_content_predicate rt call pred) pred
        (all_from rt (reasons ++ matched_reason rt pred ∷ []) call preds)
        (eval-IsOk pred k.0 h.0 e.0)
        (all_from-IsOk (reasons ++ matched_reason rt pred ∷ []) preds k.1 h.1 e.1)

  abbrev pub HasMode : ToolPolicy → Type 0
  HasMode tp =
      (tp.never_when_match ≡ "")
      ⊎ (tp.never_when_match ≡ content_match_any)
      ⊎ (tp.never_when_match ≡ content_match_all)

  check-IsOk :
      (tp : ToolPolicy)
      → All (IsKnownPredicate rt p) tp.never_when
      → All (HasPattern rt p) tp.never_when
      → All IsPresent tp.never_when
      → HasMode tp
      → IsOk (check_content rt (some tp) call)
  unfolding check_content eval_never_when_all
  check-IsOk tp k h e m = ground (
    arith,
    eq_iff tp.never_when_match "",
    eq_iff tp.never_when_match content_match_any,
    eq_iff tp.never_when_match content_match_all,
    m,
    any-IsOk tp.never_when k h e,
    all_from-IsOk [] tp.never_when k h e,
  )

  -- If the linter reports no ERROR for the policy, the tool of the call has a policy whose match mode is
  -- absent, "any" or "all", and every argument that its never_when predicates name is there, then the
  -- content evaluator comes to a decision, and not to an error.
  pub evaluate-IsOk :
      (sess : Session) (tp : ToolPolicy)
      → has_error (lint rt p) ≡ false
      → tool_policy p call.tool_name ≡ some tp
      → HasMode tp
      → All IsPresent tp.never_when
      → IsOk (evaluate rt call sess p)
  unfolding evaluate
  evaluate-IsOk sess tp clean e m present =
      let sound = (lint-IsSound rt p).0 clean in
      subst (λ o. IsOk (check_content rt o call)) (sym e)
        (check-IsOk tp
          (lookup-All (λ t. All (IsKnownPredicate rt p) t.never_when) p.tools call.tool_name tp
            sound.operators e)
          (lookup-All (λ t. All (HasPattern rt p) t.never_when) p.tools call.tool_name tp
            sound.patterns e)
          present m)

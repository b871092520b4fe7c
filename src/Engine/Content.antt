-- ===== src/Engine/Content.antt =====
-- internal/engine/content.go: predicates on the arguments of a call, combined by OR or by AND.
pub mod Exact
pub mod Linted
use truebearing.Base.{
  ℕ, pos, String, ◌≡◌, ◌↔◌, ◌⊎◌, inl, inr, refl, Bool, true, false, not, Option, none, some, List,
  [], ◌∷◌, ◌++◌, arith, ◌==◌, ◌||◌, eq_iff, if◌then◌else◌, is_empty, length, All, Bool-cases,
}
use truebearing.Go.{Runtime, Result, ok, err, text, errorf, wrapf, GoError, ◌>>=◌}
use truebearing.Engine.Types.{deny, allowed, refusal, Decision, Evaluator, ToolCall, tool_policy}
use truebearing.Engine.Outcome.{Answers, IsAnswer}
use truebearing.Policy.{Policy, ToolPolicy, ContentPredicate, content_match_any, content_match_all}
use truebearing.Session.{Session}

-- The regular expression of a predicate, without its delimiters.
abbrev pub pattern_of : Runtime → ContentPredicate → String
pattern_of rt pred = rt.trim_suffix (rt.trim_prefix pred.value "/") "/"

module _ (rt : Runtime) where
  match_compiled : Result (String → Bool) → ContentPredicate → String → Result Bool
  match_compiled (err e) pred arg =
      err (wrapf ("compiling contains_pattern regexp " ∷ rt.quote pred.value ∷ ": " ∷ []) e)
  match_compiled (ok re) pred arg = ok (re arg)

  unfoldable pub fires : String → ContentPredicate → Result Bool
  unfolding match_compiled
  fires arg pred =
      if pred.operator == "is_external"
      then ok (not (rt.has_suffix arg pred.value))
      else if pred.operator == "contains_pattern"
      then match_compiled (rt.regexp_compile (pattern_of rt pred)) pred arg
      else if pred.operator == "equals"
      then ok (arg == pred.value)
      else if pred.operator == "not_equals"
      then ok (not (arg == pred.value))
      else err (errorf ("unsupported never_when operator " ∷ rt.quote pred.operator ∷ []))

  unfoldable pub eval_content_predicate : ToolCall → ContentPredicate → Result Bool
  unfolding fires
  eval_content_predicate call pred =
      let result = rt.gjson_get call.arguments pred.argument in
      if not result.exists
      then err (
          errorf (
            "argument "
            ∷ rt.quote pred.argument
            ∷ " not found in tool call arguments (fail closed)"
            ∷ []))
      else fires result.text pred

  predicate_failed : ToolCall → ContentPredicate → GoError → GoError
  predicate_failed call pred e =
      wrapf
        ("evaluating never_when predicate (argument="
          ∷ rt.quote pred.argument
          ∷ " operator="
          ∷ rt.quote pred.operator
          ∷ ") for tool "
          ∷ rt.quote call.tool_name
          ∷ ": "
          ∷ [])
        e

  deny_any : ContentPredicate → Decision
  deny_any pred =
      refusal deny
        (text (
          "never_when: argument "
          ∷ rt.quote pred.argument
          ∷ " "
          ∷ pred.operator
          ∷ " "
          ∷ rt.quote pred.value
          ∷ []))
        (text ("content." ∷ pred.argument ∷ "." ∷ pred.operator ∷ [])) "content_blocked" []
        (text (
          "Tool call was blocked by a content predicate: argument "
          ∷ rt.quote pred.argument
          ∷ " must not satisfy "
          ∷ pred.operator
          ∷ " "
          ∷ rt.quote pred.value
          ∷ ". Modify the argument value and retry."
          ∷ []))

  step_any : Result Bool → ToolCall → ContentPredicate → Result Decision → Result Decision
  unfolding predicate_failed deny_any
  step_any (err e) call pred later = err (predicate_failed call pred e)
  step_any (ok true) call pred later = ok (deny_any pred)
  step_any (ok false) call pred later = later

  unfoldable pub eval_never_when_any : ToolCall → List ContentPredicate → Result Decision
  unfolding step_any
  eval_never_when_any call [] = ok allowed
  eval_never_when_any call (pred ∷ rest) =
      let later = eval_never_when_any call rest in
      step_any (eval_content_predicate call pred) call pred later

  matched_reason : ContentPredicate → String
  matched_reason pred =
      text (
        "argument " ∷ rt.quote pred.argument ∷ " " ∷ pred.operator ∷ " " ∷ rt.quote pred.value ∷ [])

  deny_all : List String → Decision
  deny_all reasons =
      refusal deny
        (text (
          "never_when (all): all "
          ∷ rt.show_int (pos (length reasons))
          ∷ " predicates matched: "
          ∷ rt.join reasons "; "
          ∷ []))
        "content.all_matched" "content_blocked" []
        (text (
          "Tool call was blocked because all "
          ∷ rt.show_int (pos (length reasons))
          ∷ " never_when conditions matched simultaneously. Modify the flagged argument values and retry."
          ∷ []))

  step_all : Result Bool → ToolCall → ContentPredicate → Result Decision → Result Decision
  unfolding predicate_failed
  step_all (err e) call pred later = err (predicate_failed call pred e)
  step_all (ok true) call pred later = later
  step_all (ok false) call pred later = ok allowed

  -- The loop, with the reasons that it has gathered.
  unfoldable pub all_from : List String → ToolCall → List ContentPredicate → Result Decision
  unfolding step_all deny_all matched_reason
  all_from reasons call [] = ok (deny_all reasons)
  all_from reasons call (pred ∷ rest) =
      let later = all_from (reasons ++ matched_reason pred ∷ []) call rest in
      step_all (eval_content_predicate call pred) call pred later

  unfoldable pub eval_never_when_all : ToolCall → List ContentPredicate → Result Decision
  unfolding all_from
  eval_never_when_all call preds = all_from [] call preds

  unfoldable pub check_content : Option ToolPolicy → ToolCall → Result Decision
  check_content none call = ok allowed
  check_content (some tp) call =
      if is_empty tp.never_when
      then ok allowed
      else if tp.never_when_match == "" || tp.never_when_match == content_match_any
      then eval_never_when_any call tp.never_when
      else if tp.never_when_match == content_match_all
      then eval_never_when_all call tp.never_when
      else err (
          errorf (
            "unsupported never_when_match value "
            ∷ rt.quote tp.never_when_match
            ∷ " for tool "
            ∷ rt.quote call.tool_name
            ∷ ": supported values are "
            ∷ rt.quote content_match_any
            ∷ " and "
            ∷ rt.quote content_match_all
            ∷ []))

  unfoldable pub evaluate : Evaluator
  unfolding check_content
  evaluate call sess pol = check_content (tool_policy pol call.tool_name) call

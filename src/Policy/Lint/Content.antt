-- ===== src/Policy/Lint/Content.antt =====
-- internal/policy/lint.go: the rules on the content predicates and the rate limit of each tool, L014,
-- L015 and L017 to L019.
use truebearing.Base.{
  ℕ, ◌+◌, ltb, pos, leb_ℤ, String, Bool, true, false, not, ◌&&◌, Option, none, some, List, [], ◌∷◌,
  ◌++◌, ◌==◌, contains, length,
}
use truebearing.Go.{Runtime, Result, ok, err}
use truebearing.Policy.{ContentPredicate, Policy, RateLimitPolicy, ToolPolicy}
use truebearing.Policy.Lint.Results.{error, for_each, LintResult, report_if, result, warning}

-- The keys of the operator map.
abbrev pub valid_content_operators : List String
valid_content_operators = "is_external" ∷ "contains_pattern" ∷ "equals" ∷ "not_equals" ∷ []

module _ (rt : Runtime) (p : Policy) where
  -- The inner loop of L014, from predicate number `i` on.
  unfoldable pub bad_operators : String → ℕ → List ContentPredicate → List LintResult
  bad_operators name i [] = []
  bad_operators name i (pred ∷ preds) =
      report_if (not (contains valid_content_operators pred.operator)) (
        result "L014" error (
          "tool "
          ∷ rt.quote name
          ∷ ": never_when["
          ∷ rt.show_int (pos i)
          ∷ "] operator "
          ∷ rt.quote pred.operator
          ∷ " is not valid; supported operators: is_external, contains_pattern, equals, not_equals"
          ∷ []))
      ++ bad_operators name (i + 1) preds

  unfoldable pub operators : String → ToolPolicy → List LintResult
  unfolding bad_operators
  operators name tp = bad_operators name 0 tp.never_when

  unfoldable pub lint_l014 : List LintResult
  unfolding operators
  lint_l014 = for_each operators p.tools

  unfoldable pub bad_pattern :
      String → ℕ → ContentPredicate → Result (String → Bool) → List LintResult
  bad_pattern name i pred (ok re) = []
  bad_pattern name i pred (err e) =
      result "L015" error (
        "tool "
        ∷ rt.quote name
        ∷ ": never_when["
        ∷ rt.show_int (pos i)
        ∷ "] contains_pattern value "
        ∷ rt.quote pred.value
        ∷ " is not a valid Go regexp: "
        ∷ e.message
        ∷ [])
      ∷ []

  unfoldable pub one_pattern : String → ℕ → ContentPredicate → List LintResult
  unfolding bad_pattern
  one_pattern name i pred = elim (pred.operator == "contains_pattern") [
    | false ↦ []
    | true ↦
        bad_pattern name i pred
          (rt.regexp_compile (rt.trim_suffix (rt.trim_prefix pred.value "/") "/"))
  ]

  unfoldable pub bad_patterns : String → ℕ → List ContentPredicate → List LintResult
  unfolding one_pattern
  bad_patterns name i [] = []
  bad_patterns name i (pred ∷ preds) = one_pattern name i pred ++ bad_patterns name (i + 1) preds

  unfoldable pub patterns : String → ToolPolicy → List LintResult
  unfolding bad_patterns
  patterns name tp = bad_patterns name 0 tp.never_when

  unfoldable pub lint_l015 : List LintResult
  unfolding patterns
  lint_l015 = for_each patterns p.tools

  unfoldable pub bad_window : String → Option RateLimitPolicy → List LintResult
  bad_window name none = []
  bad_window name (some rl) = report_if (leb_ℤ rl.window_seconds (pos 0)) (
      result "L017" error (
        "tool "
        ∷ rt.quote name
        ∷ ": rate_limit.window_seconds must be a positive integer, got "
        ∷ rt.show_int rl.window_seconds
        ∷ []))

  unfoldable pub windows : String → ToolPolicy → List LintResult
  unfolding bad_window
  windows name tp = bad_window name tp.rate_limit

  unfoldable pub lint_l017 : List LintResult
  unfolding windows
  lint_l017 = for_each windows p.tools

  unfoldable pub bad_max : String → Option RateLimitPolicy → List LintResult
  bad_max name none = []
  bad_max name (some rl) = report_if (leb_ℤ rl.max_calls (pos 0)) (
      result "L018" error (
        "tool "
        ∷ rt.quote name
        ∷ ": rate_limit.max_calls must be a positive integer, got "
        ∷ rt.show_int rl.max_calls
        ∷ []))

  unfoldable pub maxima : String → ToolPolicy → List LintResult
  unfolding bad_max
  maxima name tp = bad_max name tp.rate_limit

  unfoldable pub lint_l018 : List LintResult
  unfolding maxima
  lint_l018 = for_each maxima p.tools

  unfoldable pub ambiguous : String → ToolPolicy → List LintResult
  ambiguous name tp = report_if (ltb 1 (length tp.never_when) && tp.never_when_match == "") (
      result "L019" warning (
        "tool "
        ∷ rt.quote name
        ∷ ": never_when has "
        ∷ rt.show_int (pos (length tp.never_when))
        ∷ " predicates but never_when_match is not set; defaulting to \"any\" (OR logic) — add never_when_match: any or never_when_match: all to make the intent explicit"
        ∷ []))

  unfoldable pub lint_l019 : List LintResult
  unfolding ambiguous
  lint_l019 = for_each ambiguous p.tools

-- ===== src/Policy/Lint/Sound.antt =====
-- What the policies are that the rules report no ERROR for.
use truebearing.Base.{String, ◌≡◌, ◌↔◌, refl, false, List, All, is_empty}
use truebearing.Go.{Runtime}
use truebearing.Policy.{Policy, ToolPolicy}
use truebearing.Policy.Lint.{diagnostics, lint}
use truebearing.Policy.Lint.Results.{for_each, has_error, LintResult}
use truebearing.Policy.Lint.Fields.{
  lint_l001, lint_l005, lint_l006, lint_l007, lint_l009, lint_l011, lint_l016,
}
use truebearing.Policy.Lint.Tools.{
  counts, escalate_operators, lint_l002, lint_l003, lint_l004, lint_l008, lint_l010, lint_l012,
  never_after_deps, only_after_deps, unlisted, unmonitored,
}
use truebearing.Policy.Lint.Content.{
  ambiguous, lint_l014, lint_l015, lint_l017, lint_l018, lint_l019, maxima, operators, patterns,
  windows,
}
use truebearing.Policy.Lint.Cycle.{adjacency}
use truebearing.Policy.Lint.Cycle.Exact.{IsAcyclic}
use truebearing.Policy.Lint.Clean.{
  all_of-IsClean, for_each-IsClean, for_each-only_warns, IsClean, OnSome, report_if-IsClean,
  report_if-only_warns,
}
use truebearing.Policy.Lint.Rules.{
  bad_count-IsClean, bad_escalate_operator-IsClean, bad_max-IsClean, bad_operators-IsClean,
  bad_patterns-IsClean, bad_window-IsClean, HasPattern, IsKnown, IsKnownPredicate, IsListed,
  IsPositive, lint_l013-IsClean, unlisted-IsClean, unlisted_deps-IsClean,
}

module _ (rt : Runtime) (p : Policy) where
  -- Of all tools.
  abbrev pub Tools : (String → ToolPolicy → Type 0) → Type 0
  Tools P = All (λ tool. P tool.0 tool.1) p.tools

-- The agent may use some tool; the tools, and those their sequences name, are ones it may use; counts,
-- windows and limits are positive; operators are known and patterns compile; the `only_after` rules
-- have no cycle.
pub record IsSound (rt : Runtime) (p : Policy) : Type 0 where
  pub may_use : is_empty p.may_use ≡ false
  pub listed : Tools rt p (λ name tp. IsListed rt p name)
  pub only_after : Tools rt p (λ name tp. All (IsListed rt p) tp.sequence.only_after)
  pub never_after : Tools rt p (λ name tp. All (IsListed rt p) tp.sequence.never_after)
  pub counts :
      Tools rt p (λ name tp. OnSome (λ rule. IsPositive rule.count) tp.sequence.requires_prior_n)
  pub escalate_when : Tools rt p (λ name tp. OnSome (IsKnown rt p) tp.escalate_when)
  pub acyclic : IsAcyclic (adjacency p.tools)
  pub operators : Tools rt p (λ name tp. All (IsKnownPredicate rt p) tp.never_when)
  pub patterns : Tools rt p (λ name tp. All (HasPattern rt p) tp.never_when)
  pub windows : Tools rt p (λ name tp. OnSome (λ rl. IsPositive rl.window_seconds) tp.rate_limit)
  pub maxima : Tools rt p (λ name tp. OnSome (λ rl. IsPositive rl.max_calls) tp.rate_limit)

module _ (rt : Runtime) (p : Policy) where
  each :
      (P : String → ToolPolicy → Type 0) (rule : String → ToolPolicy → List LintResult)
      → ((name : String) (tp : ToolPolicy) → IsClean (rule name tp) ↔ P name tp)
      → IsClean (for_each rule p.tools) ↔ Tools rt p P
  each P rule f = for_each-IsClean (λ tool. P tool.0 tool.1) rule f p.tools

  lint_l005-only_warns : IsClean (lint_l005 p)
  unfolding lint_l005
  lint_l005-only_warns = report_if-only_warns _ _ refl

  lint_l006-only_warns : IsClean (lint_l006 rt p)
  unfolding lint_l006
  lint_l006-only_warns = report_if-only_warns _ _ refl

  lint_l007-only_warns : IsClean (lint_l007 p)
  unfolding lint_l007
  lint_l007-only_warns = report_if-only_warns _ _ refl

  lint_l009-only_warns : IsClean (lint_l009 p)
  unfolding lint_l009
  lint_l009-only_warns = report_if-only_warns _ _ refl

  lint_l011-only_warns : IsClean (lint_l011 p)
  unfolding lint_l011
  lint_l011-only_warns = report_if-only_warns _ _ refl

  lint_l016-only_warns : IsClean (lint_l016 rt p)
  unfolding lint_l016
  lint_l016-only_warns = report_if-only_warns _ _ refl

  lint_l008-only_warns : IsClean (lint_l008 rt p)
  unfolding lint_l008 unmonitored
  lint_l008-only_warns =
      for_each-only_warns (unmonitored rt p) (λ name tp. report_if-only_warns _ _ refl) p.tools

  lint_l019-only_warns : IsClean (lint_l019 rt p)
  unfolding lint_l019 ambiguous
  lint_l019-only_warns =
      for_each-only_warns (ambiguous rt p) (λ name tp. report_if-only_warns _ _ refl) p.tools

  lint_l001-IsClean : IsClean (lint_l001 p) ↔ (is_empty p.may_use ≡ false)
  unfolding lint_l001
  lint_l001-IsClean = report_if-IsClean _ _ refl

  lint_l002-IsClean : IsClean (lint_l002 rt p) ↔ Tools rt p (λ name tp. IsListed rt p name)
  unfolding lint_l002
  lint_l002-IsClean = each _ (unlisted rt p) (λ name tp. unlisted-IsClean rt p name tp)

  lint_l003-IsClean :
      IsClean (lint_l003 rt p) ↔ Tools rt p (λ name tp. All (IsListed rt p) tp.sequence.only_after)
  unfolding lint_l003 only_after_deps
  lint_l003-IsClean =
      each _ (only_after_deps rt p)
        (λ name tp. unlisted_deps-IsClean rt p _ name _ tp.sequence.only_after)

  lint_l004-IsClean :
      IsClean (lint_l004 rt p) ↔ Tools rt p (λ name tp. All (IsListed rt p) tp.sequence.never_after)
  unfolding lint_l004 never_after_deps
  lint_l004-IsClean =
      each _ (never_after_deps rt p)
        (λ name tp. unlisted_deps-IsClean rt p _ name _ tp.sequence.never_after)

  lint_l010-IsClean :
      IsClean (lint_l010 rt p)
      ↔ Tools rt p (λ name tp. OnSome (λ rule. IsPositive rule.count) tp.sequence.requires_prior_n)
  unfolding lint_l010 counts
  lint_l010-IsClean =
      each _ (counts rt p) (λ name tp. bad_count-IsClean rt p name tp.sequence.requires_prior_n)

  lint_l012-IsClean :
      IsClean (lint_l012 rt p) ↔ Tools rt p (λ name tp. OnSome (IsKnown rt p) tp.escalate_when)
  unfolding lint_l012 escalate_operators
  lint_l012-IsClean =
      each _ (escalate_operators rt p)
        (λ name tp. bad_escalate_operator-IsClean rt p name tp.escalate_when)

  lint_l014-IsClean :
      IsClean (lint_l014 rt p) ↔ Tools rt p (λ name tp. All (IsKnownPredicate rt p) tp.never_when)
  unfolding lint_l014 operators
  lint_l014-IsClean =
      each _ (operators rt p) (λ name tp. bad_operators-IsClean rt p name 0 tp.never_when)

  lint_l015-IsClean :
      IsClean (lint_l015 rt p) ↔ Tools rt p (λ name tp. All (HasPattern rt p) tp.never_when)
  unfolding lint_l015 patterns
  lint_l015-IsClean =
      each _ (patterns rt p) (λ name tp. bad_patterns-IsClean rt p name 0 tp.never_when)

  lint_l017-IsClean :
      IsClean (lint_l017 rt p)
      ↔ Tools rt p (λ name tp. OnSome (λ rl. IsPositive rl.window_seconds) tp.rate_limit)
  unfolding lint_l017 windows
  lint_l017-IsClean = each _ (windows rt p) (λ name tp. bad_window-IsClean rt p name tp.rate_limit)

  lint_l018-IsClean :
      IsClean (lint_l018 rt p)
      ↔ Tools rt p (λ name tp. OnSome (λ rl. IsPositive rl.max_calls) tp.rate_limit)
  unfolding lint_l018 maxima
  lint_l018-IsClean = each _ (maxima rt p) (λ name tp. bad_max-IsClean rt p name tp.rate_limit)

  -- The linter reports no ERROR exactly when: the agent may use some tool; each tool that is defined, and
  -- each that an only_after or never_after names, is in may_use; requires_prior_n counts, rate-limit
  -- windows and rate-limit maxima are positive; operators of never_when and escalate_when are known and
  -- patterns compile; and no walk along only_after edges comes back to its start.
  pub lint-IsSound : (has_error (lint rt p) ≡ false) ↔ IsSound rt p
  unfolding lint
  lint-IsSound = (
    (λ c.
        let h = (all_of-IsClean (diagnostics rt p)).0 c in
        record {
          may_use = lint_l001-IsClean.0 (h.0);
          listed = lint_l002-IsClean.0 (h.1.0);
          only_after = lint_l003-IsClean.0 (h.1.1.0);
          never_after = lint_l004-IsClean.0 (h.1.1.1.0);
          counts = lint_l010-IsClean.0 (h.1.1.1.1.1.1.1.1.1.0);
          escalate_when = lint_l012-IsClean.0 (h.1.1.1.1.1.1.1.1.1.1.1.0);
          acyclic = (lint_l013-IsClean rt p).0 (h.1.1.1.1.1.1.1.1.1.1.1.1.0);
          operators = lint_l014-IsClean.0 (h.1.1.1.1.1.1.1.1.1.1.1.1.1.0);
          patterns = lint_l015-IsClean.0 (h.1.1.1.1.1.1.1.1.1.1.1.1.1.1.0);
          windows = lint_l017-IsClean.0 (h.1.1.1.1.1.1.1.1.1.1.1.1.1.1.1.1.0);
          maxima = lint_l018-IsClean.0 (h.1.1.1.1.1.1.1.1.1.1.1.1.1.1.1.1.1.0);
        }),
    λ s. (all_of-IsClean (diagnostics rt p)).1 (
      lint_l001-IsClean.1 s.may_use,
      (
        lint_l002-IsClean.1 s.listed,
        (
          lint_l003-IsClean.1 s.only_after,
          (
            lint_l004-IsClean.1 s.never_after,
            (
              lint_l005-only_warns,
              (
                lint_l006-only_warns,
                (
                  lint_l007-only_warns,
                  (
                    lint_l008-only_warns,
                    (
                      lint_l009-only_warns,
                      (
                        lint_l010-IsClean.1 s.counts,
                        (
                          lint_l011-only_warns,
                          (
                            lint_l012-IsClean.1 s.escalate_when,
                            (
                              (lint_l013-IsClean rt p).1 s.acyclic,
                              (
                                lint_l014-IsClean.1 s.operators,
                                (
                                  lint_l015-IsClean.1 s.patterns,
                                  (
                                    lint_l016-only_warns,
                                    (
                                      lint_l017-IsClean.1 s.windows,
                                      (lint_l018-IsClean.1 s.maxima, (lint_l019-only_warns, tt)),
                                    ),
                                  ),
                                ),
                              ),
                            ),
                          ),
                        ),
                      ),
                    ),
                  ),
                ),
              ),
            ),
          ),
        ),
      ),
    ),
  )

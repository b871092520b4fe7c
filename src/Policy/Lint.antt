-- ===== src/Policy/Lint.antt =====
-- internal/policy/lint.go: all the rules, in the order of their codes. L020, which needs the audit log,
-- is apart.
pub mod Results
pub mod Fields
pub mod Tools
pub mod Content
pub mod Cycle
pub mod Clean
pub mod Rules
pub mod Sound
use truebearing.Base.{List, [], ◌∷◌, ◌++◌}
use truebearing.Go.{Runtime}
use truebearing.Policy.{Policy}
use truebearing.Policy.Lint.Results.{LintResult}
use truebearing.Policy.Lint.Fields.{
  lint_l001, lint_l005, lint_l006, lint_l007, lint_l009, lint_l011, lint_l016,
}
use truebearing.Policy.Lint.Tools.{lint_l002, lint_l003, lint_l004, lint_l008, lint_l010, lint_l012}
use truebearing.Policy.Lint.Content.{lint_l014, lint_l015, lint_l017, lint_l018, lint_l019}
use truebearing.Policy.Lint.Cycle.{lint_l013}

-- The diagnostics of the rules, appended in order.
unfoldable pub all_of : List (List LintResult) → List LintResult
all_of [] = []
all_of (results ∷ rules) = results ++ all_of rules

-- What each rule reports.
abbrev pub diagnostics : Runtime → Policy → List (List LintResult)
diagnostics rt p =
    lint_l001 p
    ∷ lint_l002 rt p
    ∷ lint_l003 rt p
    ∷ lint_l004 rt p
    ∷ lint_l005 p
    ∷ lint_l006 rt p
    ∷ lint_l007 p
    ∷ lint_l008 rt p
    ∷ lint_l009 p
    ∷ lint_l010 rt p
    ∷ lint_l011 p
    ∷ lint_l012 rt p
    ∷ lint_l013 rt p
    ∷ lint_l014 rt p
    ∷ lint_l015 rt p
    ∷ lint_l016 rt p
    ∷ lint_l017 rt p
    ∷ lint_l018 rt p
    ∷ lint_l019 rt p
    ∷ []

unfoldable pub lint : Runtime → Policy → List LintResult
unfolding all_of
lint rt p = all_of (diagnostics rt p)

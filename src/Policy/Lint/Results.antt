-- ===== src/Policy/Lint/Results.antt =====
-- internal/policy/lint.go: the diagnostics, and the loop over the tools that most rules share. A Go map
-- is ranged over in the order of the association list.
use truebearing.Base.{String, Bool, true, false, List, [], ◌∷◌, ◌++◌, any}
use truebearing.Go.{text}
use truebearing.Policy.{ToolPolicy}

pub data Severity : Type 0 where
  error warning info : Severity

pub record LintResult : Type 0 where
  pub code : String
  pub severity : Severity
  pub message : String

abbrev pub result : String → Severity → List String → LintResult
result code severity message = record { code = code; severity = severity; message = text message }

-- `if test { results = append(results, r) }`
abbrev pub report_if : Bool → LintResult → List LintResult
report_if true r = r ∷ []
report_if false r = []

-- `for name, tp := range p.Tools { … }`
unfoldable pub for_each :
    (String → ToolPolicy → List LintResult) → List (String × ToolPolicy) → List LintResult
for_each rule [] = []
for_each rule ((name, tp) ∷ tools) = rule name tp ++ for_each rule tools

abbrev pub is_error : LintResult → Bool
is_error r = elim r.severity [ error ↦ true | _ ↦ false ]

unfoldable pub has_error : List LintResult → Bool
has_error results = any is_error results

-- ===== src/Policy/Lint/Clean.antt =====
-- When a rule reports no ERROR: how that composes.
use truebearing.Base.{
  String, ◌≡◌, ◌↔◌, refl, Bool, true, false, List, [], ◌∷◌, ◌++◌, ◌||◌, All, any, arith, Option,
  none, some,
}
use truebearing.Policy.{ToolPolicy}
use truebearing.Policy.Lint.{all_of}
use truebearing.Policy.Lint.Results.{for_each, has_error, is_error, LintResult, report_if}

-- No diagnostic of the list is an ERROR.
abbrev pub IsClean : List LintResult → Type 0
IsClean results = has_error results ≡ false

has_error-append : (xs ys : List LintResult) → has_error (xs ++ ys) ≡ (has_error xs || has_error ys)
unfolding has_error any
has_error-append [] ys = refl
has_error-append (x ∷ xs) ys = ground (arith, has_error-append xs ys)

module _ {P Q : Type 0} where
  pub both :
      (xs ys : List LintResult) → IsClean xs ↔ P → IsClean ys ↔ Q → IsClean (xs ++ ys) ↔ (P × Q)
  both xs ys f g = (
    (λ h. (
      f.0 (ground (arith, has_error-append xs ys, h)),
      g.0 (ground (arith, has_error-append xs ys, h)),
    )),
    λ h. ground (arith, has_error-append xs ys, f.1 h.0, g.1 h.1),
  )

pub report_if-IsClean :
    (b : Bool) (r : LintResult) → is_error r ≡ true → IsClean (report_if b r) ↔ (b ≡ false)
unfolding has_error any
report_if-IsClean true r e = ((λ h. ground (arith, h, e)), λ h. absurd (ground (arith, h)))
report_if-IsClean false r e = ((λ h. refl), λ h. refl)

-- A rule that only warns.
pub report_if-only_warns :
    (b : Bool) (r : LintResult) → is_error r ≡ false → IsClean (report_if b r)
unfolding has_error any
report_if-only_warns true r e = ground (arith, e)
report_if-only_warns false r e = refl

pub for_each-IsClean :
    (P : String × ToolPolicy → Type 0) (rule : String → ToolPolicy → List LintResult)
    → ((name : String) (tp : ToolPolicy) → IsClean (rule name tp) ↔ P (name, tp))
    → (tools : List (String × ToolPolicy)) → IsClean (for_each rule tools) ↔ All P tools
unfolding for_each has_error any
for_each-IsClean P rule f [] = ((λ h. tt), λ h. refl)
for_each-IsClean P rule f ((name, tp) ∷ tools) =
    both (rule name tp) (for_each rule tools) (f name tp) (for_each-IsClean P rule f tools)

pub for_each-only_warns :
    (rule : String → ToolPolicy → List LintResult)
    → ((name : String) (tp : ToolPolicy) → IsClean (rule name tp))
    → (tools : List (String × ToolPolicy)) → IsClean (for_each rule tools)
unfolding for_each has_error any
for_each-only_warns rule f [] = refl
for_each-only_warns rule f ((name, tp) ∷ tools) = ground (
  arith,
  has_error-append (rule name tp) (for_each rule tools),
  f name tp,
  for_each-only_warns rule f tools,
)

pub IsClean-nil : IsClean []
unfolding has_error any
IsClean-nil = refl

pub error-not_clean :
    (r : LintResult) (results : List LintResult) → is_error r ≡ true → IsClean (r ∷ results) → ⊥
unfolding has_error any
error-not_clean r results e h = ground (arith, e, h)

-- A predicate of what a pointer points to, if it is not nil.
abbrev pub OnSome : {A : Type 0} → (A → Type 0) → Option A → Type 0
OnSome P none = Unit
OnSome P (some a) = P a

pub option-IsClean :
    {A : Type 0} (P : A → Type 0) (rule : Option A → List LintResult)
    → IsClean (rule none)
    → ((a : A) → IsClean (rule (some a)) ↔ P a)
    → (o : Option A) → IsClean (rule o) ↔ OnSome P o
option-IsClean P rule n f none = ((λ h. tt), λ h. n)
option-IsClean P rule n f (some a) = f a

pub all_of-IsClean : (rules : List (List LintResult)) → IsClean (all_of rules) ↔ All IsClean rules
unfolding all_of
all_of-IsClean [] = ((λ h. tt), λ h. IsClean-nil)
all_of-IsClean (results ∷ rules) =
    both results (all_of rules) ((λ h. h), λ h. h) (all_of-IsClean rules)

-- ===== src/Engine/Pipeline/Modes.antt =====
-- What the enforcement mode makes of a refusal.
use truebearing.Base.{
  ◌≡◌, ◌↔◌, ◌⊎◌, inl, refl, true, false, none, some, List, [], ◌∷◌, arith, All, eq_iff,
}
use truebearing.Go.{Result}
use truebearing.Engine.Types.{
  allow, deny, escalate, shadow_deny, Decision, DenyFeedback, allowed, Evaluator, ToolCall,
  tool_policy,
}
use truebearing.Engine.Outcome.{Answers, IsAnswer}
use truebearing.Engine.Pipeline.{own_mode, after_stage, is_shadow, evaluate}
use truebearing.Policy.{Policy, enforcement_shadow}
use truebearing.Session.{Session}

-- What a decision can be in shadow mode: a violation only observed, or an internal error.
abbrev pub IsObserved : Decision → Type 0
IsObserved d =
    (d.action ≡ allow)
    ⊎ (d.action ≡ shadow_deny)
    ⊎ ((d.action ≡ deny) × (d.rule_id ≡ "internal_error"))

-- What a decision can be elsewhere: no shadow denial, and a denial with feedback or an error's.
abbrev pub IsEnforced : Decision → Type 0
IsEnforced d =
    (d ≡ allowed)
    ⊎ ((d.action ≡ escalate) × ((f : DenyFeedback) × (d.feedback ≡ some f)))
    ⊎ ((d.action ≡ deny)
        × (((f : DenyFeedback) × (d.feedback ≡ some f))
            ⊎ ((d.rule_id ≡ "internal_error") × (d.feedback ≡ none))))

module _ (call : ToolCall) (sess : Session) (pol : Policy) where
  after_stage-IsObserved :
      (r : Result Decision) (later : Decision × Session)
      → is_shadow pol call ≡ true
      → IsObserved later.0
      → IsObserved (after_stage r call sess pol later).0
  unfolding after_stage
  after_stage-IsObserved r later s h = ground arith

  -- In shadow mode no violation blocks: the decision is Allow, ShadowDeny, or the denial that an
  -- evaluator's error becomes.
  pub evaluate-IsObserved :
      (stages : List Evaluator)
      → is_shadow pol call ≡ true
      → IsObserved (evaluate stages call sess pol).0
  unfolding evaluate
  evaluate-IsObserved [] s = inl refl
  evaluate-IsObserved (ev ∷ stages) s =
      after_stage-IsObserved (ev call sess pol) (evaluate stages call sess pol) s
        (evaluate-IsObserved stages s)

  after_stage-IsEnforced :
      (r : Result Decision) (later : Decision × Session)
      → is_shadow pol call ≡ false
      → IsAnswer r
      → IsEnforced later.0
      → IsEnforced (after_stage r call sess pol later).0
  unfolding after_stage
  after_stage-IsEnforced r later s a h = ground arith

  -- Outside shadow mode, over evaluators that answer as documented, no decision is ShadowDeny, and
  -- every denial has feedback unless an evaluator's error made it.
  pub evaluate-IsEnforced :
      (stages : List Evaluator)
      → is_shadow pol call ≡ false
      → All Answers stages
      → IsEnforced (evaluate stages call sess pol).0
  unfolding evaluate
  evaluate-IsEnforced [] s a = inl refl
  evaluate-IsEnforced (ev ∷ stages) s a =
      after_stage-IsEnforced (ev call sess pol) (evaluate stages call sess pol) s
        (a.0 call sess pol) (evaluate-IsEnforced stages s a.1)

-- The tool's own mode decides where it is set, and the policy's elsewhere.
pub is_shadow_iff :
    (pol : Policy) (call : ToolCall)
    → (is_shadow pol call ≡ true) ↔ (
        (own_mode (tool_policy pol call.tool_name) ≡ enforcement_shadow)
        ⊎ ((own_mode (tool_policy pol call.tool_name) ≡ "")
            × (pol.enforcement_mode ≡ enforcement_shadow)))
unfolding is_shadow
is_shadow_iff pol call =
    let own = own_mode (tool_policy pol call.tool_name) in
    (
      λ h. ground (
        arith,
        eq_iff own "",
        eq_iff own enforcement_shadow,
        eq_iff pol.enforcement_mode enforcement_shadow,
        eq_iff "" enforcement_shadow,
      ),
      λ h. ground (
        arith,
        eq_iff own "",
        eq_iff own enforcement_shadow,
        eq_iff pol.enforcement_mode enforcement_shadow,
        eq_iff "" enforcement_shadow,
      ),
    )

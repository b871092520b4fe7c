-- ===== src/Engine/Pipeline/FirstFailure.antt =====
-- The chain of evaluators stops at its first failure, and only an allowed call changes the session.
use truebearing.Base.{
  ◌≡◌, ◌≢◌, ◌∙◌, ap, sym, Bool-cases, ◌↔◌, ◌⊎◌, inl, inr, refl, Bool, true, false, not, ◌&&◌,
  Option, none, some, List, [], ◌∷◌, ◌++◌, arith, ◌||◌, All,
}
use truebearing.Go.{Result, ok, err}
use truebearing.Engine.Types.{
  Action, allow, deny, escalate, shadow_deny, Decision, allowed, Evaluator, ToolCall, tool_policy,
}
use truebearing.Engine.Pipeline.{
  after_stage, convert_shadow, mutate_taint, apply_taint_mutations, internal_error, evaluate,
}
use truebearing.Policy.{Policy, ToolPolicy}
use truebearing.Session.{Session}

-- The answer of an evaluator that lets the call go on.
abbrev pub passes : Result Decision → Bool
passes (err e) = false
passes (ok d) = elim d.action [ allow ↦ true | _ ↦ false ]

-- What the pipeline makes of the answer at which it stops.
unfoldable pub verdict : Result Decision → ToolCall → Policy → Decision
unfolding convert_shadow
verdict (err e) call pol = internal_error e.message
verdict (ok d) call pol = convert_shadow call pol d

after_pass :
    (r : Result Decision) (call : ToolCall) (sess : Session) (pol : Policy)
    (later : Decision × Session)
    → passes r ≡ true
    → after_stage r call sess pol later ≡ later
unfolding after_stage
after_pass r call sess pol later h = ground arith

after_failure :
    (r : Result Decision) (call : ToolCall) (sess : Session) (pol : Policy)
    (later : Decision × Session)
    → passes r ≡ false
    → after_stage r call sess pol later ≡ (verdict r call pol, sess)
unfolding after_stage verdict
after_failure (err e) call sess pol later h = refl
after_failure (ok d) call sess pol later h = ground arith

module _ (call : ToolCall) (sess : Session) (pol : Policy) where
  abbrev pub AllPass : List Evaluator → Type 0
  AllPass stages = All (λ ev. passes (ev call sess pol) ≡ true) stages

  -- If every stage before `ev` passes and `ev` does not, the decision is the verdict on the answer
  -- of `ev`, whatever stages follow, and the session is not changed.
  pub evaluate-first_failure :
      (before : List Evaluator) (ev : Evaluator) (after : List Evaluator)
      → AllPass before
      → passes (ev call sess pol) ≡ false
      → evaluate (before ++ ev ∷ after) call sess pol ≡ (verdict (ev call sess pol) call pol, sess)
  unfolding evaluate
  evaluate-first_failure [] ev after h k = after_failure (ev call sess pol) call sess pol _ k
  evaluate-first_failure (b ∷ bs) ev after h k =
      after_pass (b call sess pol) call sess pol _ h.0 ∙ evaluate-first_failure bs ev after h.1 k

  evaluate-AllPass :
      (stages : List Evaluator)
      → AllPass stages
      → evaluate stages call sess pol ≡ (allowed, apply_taint_mutations call sess pol)
  unfolding evaluate
  evaluate-AllPass [] h = refl
  evaluate-AllPass (ev ∷ stages) h =
      after_pass (ev call sess pol) call sess pol _ h.0 ∙ evaluate-AllPass stages h.1

  verdict-not-allow : (r : Result Decision) → passes r ≡ false → (verdict r call pol).action ≢ allow
  unfolding verdict
  verdict-not-allow (err e) h = λ q. cc
  verdict-not-allow (ok d) h = ground arith

  pub AllPass-of_allow :
      (stages : List Evaluator) → (evaluate stages call sess pol).0.action ≡ allow → AllPass stages
  unfolding evaluate
  AllPass-of_allow [] h = tt
  AllPass-of_allow (ev ∷ stages) h = elim (Bool-cases (passes (ev call sess pol))) [
    | inl p ↦ (
      p,
      AllPass-of_allow stages (
          ap (λ (r : Decision × Session). r.0.action)
            (sym (after_pass (ev call sess pol) call sess pol (evaluate stages call sess pol) p))
          ∙ h),
    )
    | inr f ↦ absurd (
        verdict-not-allow (ev call sess pol) f (
          ap (λ (r : Decision × Session). r.0.action)
            (sym (after_failure (ev call sess pol) call sess pol (evaluate stages call sess pol) f))
          ∙ h))
  ]

  -- The pipeline allows exactly if every stage passes.
  pub evaluate-allow_iff :
      (stages : List Evaluator)
      → ((evaluate stages call sess pol).0.action ≡ allow) ↔ AllPass stages
  evaluate-allow_iff stages = (AllPass-of_allow stages, λ h. rw (evaluate-AllPass stages h) refl)

refused_unchanged :
    (call : ToolCall) (sess : Session) (pol : Policy) (stages : List Evaluator)
    → ((evaluate stages call sess pol).0.action ≢ allow)
    → (evaluate stages call sess pol).1 ≡ sess
unfolding evaluate
refused_unchanged call sess pol [] n = absurd (n refl)
refused_unchanged call sess pol (ev ∷ stages) n = elim (Bool-cases (passes (ev call sess pol))) [
  | inl p ↦
      let step = after_pass (ev call sess pol) call sess pol (evaluate stages call sess pol) p in
      ap (λ (r : Decision × Session). r.1) step
      ∙ refused_unchanged call sess pol stages
          (λ q. n (ap (λ (r : Decision × Session). r.0.action) step ∙ q))
  | inr f ↦
      ap (λ (r : Decision × Session). r.1)
        (after_failure (ev call sess pol) call sess pol (evaluate stages call sess pol) f)
]

-- The flag after an allowed call: `applies` wins over `clears`.
abbrev pub taint_after : Option ToolPolicy → Bool → Bool
taint_after none tainted = tainted
taint_after (some tp) tainted = tp.taint.applies || (tainted && not tp.taint.clears)

mutate_taint_lem :
    (o : Option ToolPolicy) (sess : Session)
    → mutate_taint o sess ≡ record sess { tainted = taint_after o sess.tainted }
unfolding mutate_taint
mutate_taint_lem none sess = refl
mutate_taint_lem (some tp) sess = ground arith

allow_or_not : (a : Action) → (a ≡ allow) ⊎ (a ≢ allow)
allow_or_not allow = inl refl
allow_or_not deny = inr (λ h. cc)
allow_or_not escalate = inr (λ h. cc)
allow_or_not shadow_deny = inr (λ h. cc)

-- An allowed call changes the taint flag alone, by the tool's taint policy; any other call changes
-- nothing of the session.
pub evaluate-session :
    (call : ToolCall) (sess : Session) (pol : Policy) (stages : List Evaluator)
    → (((evaluate stages call sess pol).0.action ≡ allow)
        × ((evaluate stages call sess pol).1
            ≡ record sess { tainted = taint_after (tool_policy pol call.tool_name) sess.tainted }))
      ⊎ (((evaluate stages call sess pol).0.action ≢ allow)
          × ((evaluate stages call sess pol).1 ≡ sess))
unfolding apply_taint_mutations
evaluate-session call sess pol stages =
    elim (allow_or_not (evaluate stages call sess pol).0.action) [
      | inl h ↦ inl (
        h,
        ap (λ (r : Decision × Session). r.1)
              (evaluate-AllPass call sess pol stages (AllPass-of_allow call sess pol stages h))
            ∙ mutate_taint_lem (tool_policy pol call.tool_name) sess,
      )
      | inr n ↦ inr (n, refused_unchanged call sess pol stages n)
    ]

-- ===== src/Engine/Delegation.antt =====
-- internal/engine/delegation.go: a child agent stays within the tools of its parent.
use truebearing.Base.{
  String, ◌≡◌, ◌↔◌, ◌⊎◌, inl, inr, refl, List, [], ◌∷◌, Mem, arith, ◌==◌, eq_iff, if◌then◌else◌,
  contains, contains_iff,
}
use truebearing.Go.{
  Runtime, GoError, Result, ok, err, text, errorf, wrapf, ErrorKind, parent_agent_not_found,
}
use truebearing.Engine.Types.{deny, allowed, refusal, Decision, Evaluator, ToolCall, QueryBackend}
use truebearing.Engine.Outcome.{Answers}
use truebearing.Policy.{Policy}
use truebearing.Session.{Session}

module _ (rt : Runtime) where
  -- The two messages of a failed lookup of the parent.
  lookup_failed : ErrorKind → ToolCall → GoError → GoError
  lookup_failed parent_agent_not_found call e = errorf (
      "parent agent "
      ∷ rt.quote call.parent_agent
      ∷ " not found in agents table; child agent "
      ∷ rt.quote call.agent_name
      ∷ " cannot be authorised"
      ∷ [])
  lookup_failed _ call e =
      wrapf
        ("loading parent agent "
          ∷ rt.quote call.parent_agent
          ∷ " for delegation check on behalf of "
          ∷ rt.quote call.agent_name
          ∷ ": "
          ∷ [])
        e

  check_parent : Result (List String) → ToolCall → Result Decision
  unfolding lookup_failed
  check_parent (err e) call = err (lookup_failed e.kind call e)
  check_parent (ok parent_tools) call =
      if contains parent_tools call.tool_name
      then ok allowed
      else ok (
          refusal deny
            (text (
              "delegation.exceeds_parent: tool "
              ∷ rt.quote call.tool_name
              ∷ " is not in parent agent "
              ∷ rt.quote call.parent_agent
              ∷ "'s allowed tool set"
              ∷ []))
            "delegation.exceeds_parent" "delegation_exceeded" []
            (text (
              "Tool "
              ∷ rt.quote call.tool_name
              ∷ " is not within the parent agent's delegated scope. Re-register the parent agent with an expanded tool set or use a root agent credential."
              ∷ [])))

  module _ (store : QueryBackend) where
    unfoldable pub evaluate : Evaluator
    unfolding check_parent
    evaluate call sess pol =
        if call.parent_agent == ""
        then ok allowed
        else check_parent (store.get_agent_allowed_tools call.parent_agent) call

    pub evaluate-Answers : Answers evaluate
    unfolding evaluate
    evaluate-Answers call sess pol = ground arith

    -- A root agent, or a tool that the store lists for the parent now.
    abbrev pub IsDelegated : ToolCall → Type 0
    IsDelegated call =
        (call.parent_agent ≡ "")
        ⊎ ((tools : List String) × (store.get_agent_allowed_tools call.parent_agent ≡ ok tools)
            × Mem call.tool_name tools)

    check_parent_listed :
        (call : ToolCall) (r : Result (List String))
        → check_parent r call ≡ ok allowed
        → (tools : List String) × (r ≡ ok tools) × Mem call.tool_name tools
    unfolding check_parent
    check_parent_listed call (err e) h = cc
    check_parent_listed call (ok tools) h =
        (tools, refl, (contains_iff tools call.tool_name).0 (ground arith))

    -- Delegation allows a call exactly if the agent has no parent, or the parent's tools could be read and
    -- list the tool.
    pub evaluate-IsDelegated :
        (call : ToolCall) (sess : Session) (pol : Policy)
        → (evaluate call sess pol ≡ ok allowed) ↔ IsDelegated call
    unfolding evaluate
    evaluate-IsDelegated call sess pol = (
      λ h. ground (
        arith,
        eq_iff call.parent_agent "",
        check_parent_listed call (store.get_agent_allowed_tools call.parent_agent),
      ),
      λ h. elim h [
        | inl root ↦ ground (arith, eq_iff call.parent_agent "")
        | inr (tools, found, member) ↦ ground (arith, contains_iff tools call.tool_name)
      ],
    )

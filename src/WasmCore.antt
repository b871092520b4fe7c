-- ===== src/WasmCore.antt =====
-- cmd/wasm/core.go: one call evaluated against a session that the host passes in. The JSON of the result
-- is the record that it encodes.
use truebearing.Base.{ℤ, String, ◌≡◌, ◌↔◌, refl, List, arith, eq_iff}
use truebearing.Go.{err, ok, Result, Runtime, text}
use truebearing.Base.{[], ◌∷◌}
use truebearing.Engine.Budget.{ZeroIsNotAbove}
use truebearing.Engine.Chain.{stages}
use truebearing.Engine.Chain.Permitted.{evaluate-IsPermitted, IsPermitted}
use truebearing.Engine.MemBackend.{mem_backend}
use truebearing.Engine.Pipeline.{evaluate}
use truebearing.Engine.Types.{
  Action, action_string, allow, ApprovedEscalationEntry, Decision, deny, escalate, QueryBackend,
  SessionEventEntry, shadow_deny, ToolCall,
}
use truebearing.Policy.{Policy}
use truebearing.Session.{Session}

pub record WasmSessionState : Type 0 where
  pub session : Session
  pub events : List SessionEventEntry
  pub approved_escalations : List ApprovedEscalationEntry
  pub parent_tools : List String

pub record WasmDecision : Type 0 where
  pub action : String
  pub reason : String
  pub rule_id : String

-- `json.Unmarshal` of the three inputs.
pub record WasmDecoder : Type 0 where
  pub unmarshal_policy : String → Result Policy
  pub unmarshal_session : String → Result WasmSessionState
  pub unmarshal_call : String → Result ToolCall

abbrev pub encode_deny : String → WasmDecision
encode_deny reason = record {
  action = action_string deny;
  reason = reason;
  rule_id = "wasm_input_error";
}

abbrev pub wasm_decision : Decision → WasmDecision
wasm_decision d = record { action = action_string d.action; reason = d.reason; rule_id = d.rule_id }

abbrev pub backend_of : WasmSessionState → QueryBackend
backend_of ss = mem_backend (record {
  events = ss.events;
  approved_escalations = ss.approved_escalations;
  parent_tools = ss.parent_tools;
})

allow_iff : (a : Action) → (action_string a ≡ "allow") ↔ (a ≡ allow)
allow_iff allow = ((λ h. refl), λ h. refl)
allow_iff deny = ((λ h. absurd (ground (arith, eq_iff "deny" "allow", h))), λ h. cc)
allow_iff escalate = ((λ h. absurd (ground (arith, eq_iff "escalate" "allow", h))), λ h. cc)
allow_iff shadow_deny = ((λ h. absurd (ground (arith, eq_iff "shadow_deny" "allow", h))), λ h. cc)

module _ (rt : Runtime) (now : ℤ) (decoder : WasmDecoder) where
  -- The inputs are decoded in this order, and the first one that is refused decides.
  with_inputs : Result Policy → Result WasmSessionState → Result ToolCall → WasmDecision
  with_inputs (err e) ss call = encode_deny (text ("invalid policy JSON: " ∷ e.message ∷ []))
  with_inputs (ok pol) (err e) call = encode_deny (text ("invalid session JSON: " ∷ e.message ∷ []))
  with_inputs (ok pol) (ok ss) (err e) = encode_deny (text ("invalid call JSON: " ∷ e.message ∷ []))
  with_inputs (ok pol) (ok ss) (ok call) =
      wasm_decision (evaluate (stages rt now (backend_of ss)) call ss.session pol).0

  unfoldable pub evaluate_core : String → String → String → WasmDecision
  unfolding with_inputs
  evaluate_core policy_json session_json call_json =
      with_inputs (decoder.unmarshal_policy policy_json) (decoder.unmarshal_session session_json)
        (decoder.unmarshal_call call_json)

  -- All inputs can be decoded, and the call is permitted on the session as it was passed in.
  abbrev pub Permits : Result Policy → Result WasmSessionState → Result ToolCall → Type 0
  Permits (ok pol) (ok ss) (ok call) = IsPermitted rt now (backend_of ss) call ss.session pol
  Permits (ok pol) (ok ss) (err e) = ⊥
  Permits (ok pol) (err e) call = ⊥
  Permits (err e) ss call = ⊥

  denied : (reason : String) → ((encode_deny reason).action ≡ "allow") ↔ ⊥
  denied reason = ((λ h. absurd (ground (arith, eq_iff "deny" "allow", h))), λ h. absurd h)

  with_inputs-Permits :
      (pol : Result Policy) (ss : Result WasmSessionState) (call : Result ToolCall)
      → ZeroIsNotAbove rt
      → ((with_inputs pol ss call).action ≡ "allow") ↔ Permits pol ss call
  unfolding with_inputs
  with_inputs-Permits (err e) ss call law = denied ""
  with_inputs-Permits (ok pol) (err e) call law = denied ""
  with_inputs-Permits (ok pol) (ok ss) (err e) law = denied ""
  with_inputs-Permits (ok pol) (ok ss) (ok call) law =
      let text_iff =
        allow_iff (evaluate (stages rt now (backend_of ss)) call ss.session pol).0.action in
      let chain_iff = evaluate-IsPermitted rt now (backend_of ss) law call ss.session pol in
      ((λ h. chain_iff.0 (text_iff.0 h)), λ h. text_iff.1 (chain_iff.1 h))

  -- The core allows a call exactly if policy, session and call can be decoded and the call is permitted by
  -- the conditions of all nine evaluators on what the host passed in, where a float equal to zero is not
  -- above zero; an input that cannot be decoded is never allowed.
  pub evaluate_core-Permits :
      ZeroIsNotAbove rt
      → (policy_json session_json call_json : String)
      → ((evaluate_core policy_json session_json call_json).action ≡ "allow")
        ↔ Permits
            (decoder.unmarshal_policy policy_json)
            (decoder.unmarshal_session session_json)
            (decoder.unmarshal_call call_json)
  unfolding evaluate_core
  evaluate_core-Permits law policy_json session_json call_json =
      with_inputs-Permits (decoder.unmarshal_policy policy_json)
        (decoder.unmarshal_session session_json) (decoder.unmarshal_call call_json) law

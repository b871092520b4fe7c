-- ===== src/Tests/Wasm.antt =====
-- The WASM core on a session without history.
use truebearing.Base.{pos, ◌≡◌, ◌↔◌, []}
use truebearing.Go.{ok}
use truebearing.Tests.Evaluators.{zero_is_not_above}
use truebearing.Tests.World.{call_of_tool, fresh_session, test_policy, test_runtime}
use truebearing.WasmCore.{evaluate_core, evaluate_core-Permits, Permits, WasmDecoder}

abbrev decoder : WasmDecoder
decoder = record {
  unmarshal_policy = λ json. ok test_policy;
  unmarshal_session = λ json. ok (record {
    session = fresh_session;
    events = [];
    approved_escalations = [];
    parent_tools = [];
  });
  unmarshal_call = λ json. ok (call_of_tool json);
}

evaluate_core-Permits_example :
    ((evaluate_core test_runtime (pos 1001) decoder "{}" "{}" "read").action ≡ "allow")
    ↔ Permits test_runtime
        (pos 1001)
        decoder
        (ok test_policy)
        (decoder.unmarshal_session "{}")
        (ok (call_of_tool "read"))
evaluate_core-Permits_example =
    evaluate_core-Permits test_runtime (pos 1001) decoder zero_is_not_above "{}" "{}" "read"

-- ===== src/Tests/World.antt =====
-- A runtime whose parameters are concrete functions, and a policy, a session, a call and a store. A
-- float is compared by its bits, which is right for the numbers that are not negative.
use Prim.Native.Nat.{◌+◌}
use truebearing.Base.{
  pos, String, Bool, true, false, none, some, [], ◌∷◌, ◌==◌, if◌then◌else◌, leb, ltb,
}
use truebearing.Engine.StoreBackend.{ReadFaults}
use truebearing.Engine.Types.{ToolCall}
use truebearing.Go.{Runtime, zero_float, GoError, ok, plain}
use truebearing.Policy.{
  enforcement_block, enforcement_shadow, Policy, SequencePolicy, TaintPolicy, ToolPolicy,
}
use truebearing.Proxy.Auth.{AgentClaims, ed25519}
use truebearing.Proxy.Handler.{Incoming}
use truebearing.Proxy.Mcp.{McpRequest}
use truebearing.Proxy.State.{Conditions, Libraries, Proxy, Request}
use truebearing.Session.{Session}
use truebearing.Store.Rows.{Agent, Escalation, SessionRow, Store}

abbrev pub test_runtime : Runtime
test_runtime = record {
  quote = λ s. s;
  show_int = λ n. "n";
  show_float = λ x. "x";
  show_value = λ v. "v";
  join = λ xs sep. sep;
  has_suffix = λ s t. false;
  has_substring = λ s t. false;
  trim_prefix = λ s t. if s == "Bearer h.p.s" then "h.p.s" else s;
  trim_suffix = λ s t. s;
  float_lt = λ x y. ltb x.bits y.bits;
  float_le = λ x y. leb x.bits y.bits;
  float_eq = λ x y. if leb x.bits y.bits then leb y.bits x.bits else false;
  float_add = λ x y. record { bits = x.bits + y.bits };
  float_of_int = λ n. zero_float;
  float_of_float32 = λ n. record { bits = n };
  gjson_get = λ json path. record { exists = false; text = ""; number = zero_float };
  regexp_compile = λ pattern. ok (λ s. false);
  sha256_hex = λ s. s;
  decode_tools = λ s. ok ("read" ∷ "write" ∷ []);
  has_prefix = λ s t. s == "Bearer h.p.s";
  split = λ s sep. "h" ∷ "p" ∷ "s" ∷ [];
  rfc3339 = λ t. "";
}

abbrev pub no_sequence : SequencePolicy
no_sequence = record { only_after = []; never_after = []; requires_prior_n = none }

abbrev pub no_taint : TaintPolicy
no_taint = record { applies = false; label = ""; clears = false }

abbrev pub read_policy : ToolPolicy
read_policy = record {
  enforcement_mode = "";
  sequence = no_sequence;
  taint = record { applies = true; label = "pii"; clears = false };
  escalate_when = none;
  never_when = [];
  never_when_match = "any";
  rate_limit = some (record { max_calls = pos 5; window_seconds = pos 60 });
}

-- "write" needs a "read" before it.
abbrev pub write_policy : ToolPolicy
write_policy = record {
  enforcement_mode = enforcement_shadow;
  sequence = record { only_after = "read" ∷ []; never_after = []; requires_prior_n = none };
  taint = no_taint;
  escalate_when = none;
  never_when = [];
  never_when_match = "any";
  rate_limit = none;
}

abbrev pub test_policy : Policy
test_policy = record {
  version = "1";
  agent = "bot";
  enforcement_mode = enforcement_block;
  session = record { max_history = pos 0; max_duration_seconds = pos 0; require_env = "" };
  budget = record { max_tool_calls = pos 10; max_cost_usd = record { bits = 100 } };
  may_use = "read" ∷ "write" ∷ [];
  tools = ("read", read_policy) ∷ ("write", write_policy) ∷ [];
  escalation = none;
  fingerprint = "f1";
  source_path = "p.yaml";
}

abbrev pub fresh_session : Session
fresh_session = record {
  id = "s1";
  agent_name = "bot";
  policy_fingerprint = "f1";
  tainted = false;
  tool_call_count = pos 0;
  estimated_cost_usd = zero_float;
  terminated = false;
}

abbrev pub call_of_tool : String → ToolCall
call_of_tool name = record {
  session_id = "s1";
  agent_name = "bot";
  tool_name = name;
  arguments = "{}";
  agent_env = "";
  parent_agent = "";
  requested_at = pos 1000;
}

abbrev pub session_row : Bool → SessionRow
session_row terminated = record {
  id = "s1";
  agent_name = "bot";
  policy_fingerprint = "f1";
  tainted = false;
  tool_call_count = pos 0;
  estimated_cost_usd = zero_float;
  terminated = terminated;
  created_at = pos 1;
  last_seen_at = pos 1;
}

abbrev pub bot : Agent
bot = record {
  name = "bot";
  public_key_pem = "pem";
  policy_file = "p.yaml";
  allowed_tools_json = "[]";
  registered_at = pos 0;
  jwt_preview = "";
  revoked_at = none;
}

abbrev pub pending : Escalation
pending = record {
  id = "e1";
  session_id = "s1";
  seq = 1;
  tool_name = "write";
  arguments_json = some "{}";
  status = "pending";
  reason = none;
  created_at = pos 5;
  resolved_at = none;
}

abbrev pub store_with : SessionRow → Store
store_with row = record {
  sessions = row ∷ [];
  session_events = [];
  audit_log = [];
  agents = bot ∷ [];
  escalations = pending ∷ [];
}

abbrev pub no_read_faults : ReadFaults
no_read_faults = record { events = none; count = none; approved = none; agent = none }

abbrev pub driver_error : GoError
driver_error = record { kind = plain; message = "driver" }

abbrev pub quiet : Conditions
quiet = record {
  requested_at = pos 1000;
  now = pos 1001;
  audit_id = "a1";
  escalation_id = "e2";
  agent_fault = none;
  status_fault = none;
  trace_fault = none;
  session_fault = none;
  create_fault = none;
  read_faults = no_read_faults;
  append_fault = none;
  audit_fault = none;
  taint_fault = none;
  counter_fault = none;
  escalation_fault = none;
  duplicate = driver_error;
  refused = driver_error;
}

abbrev pub bot_claims : AgentClaims
bot_claims = record { agent_name = "bot"; parent_agent = ""; env = "" }

abbrev pub read_call : McpRequest
read_call = record { json_rpc = "2.0"; id = "1"; method = "tools/call"; params = "read" }

abbrev pub test_libraries : Libraries
test_libraries = record {
  rt = test_runtime;
  auth = record {
    decode_segment = λ s. ok s;
    decode_agent = λ s. ok "bot";
    pem_block = λ pem. some pem;
    parse_pkix = λ block. ok (ed25519 "key");
    parse_with_claims = λ token key. ok (bot_claims, true);
  };
  decoder = record {
    decode_request = λ body. ok read_call;
    decode_params = λ raw. ok (record { name = raw; arguments = "{}" });
  };
  signer = record {
    marshal = λ m. ok "json";
    ed25519_sign = λ key payload. "sig";
    ed25519_verify = λ key payload sig. sig == "sig";
    encode_base64 = λ s. s;
    decode_base64 = λ s. ok s;
  };
  cost_per_tool_call = record { bits = 1 };
}

abbrev pub test_proxy : SessionRow → Proxy
test_proxy row = record {
  store = store_with row;
  live_pol = test_policy;
  pol_cache = record {
    capacity = 16;
    list = record { number = 0; fingerprint = "f1"; pol = test_policy } ∷ [];
    index = ("f1", 0) ∷ [];
    next = 1;
  };
  signing_key = some "key";
  audit_strict = true;
  audit_write_failures = pos 0;
  admin_port = pos 7774;
  tracing = false;
  trace = [];
}

abbrev pub read_request : Request
read_request = record {
  authorization = "Bearer h.p.s";
  session_header = "s1";
  headers = λ h. "";
  body = ok "body";
}

abbrev pub read_incoming : Incoming
read_incoming = record {
  request = read_request;
  rpc_id = "1";
  params = record { name = "read"; arguments = "{}" };
  session_id = "s1";
  claims = bot_claims;
}

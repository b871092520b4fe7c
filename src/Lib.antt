-- ===== src/Lib.antt =====
-- TrueBearing: a proxy that stands between an agent and an MCP server, evaluates each tool call against
-- a policy, and forwards, denies or escalates it.
--
-- Parts, and where they are modelled:
-- - Base, Go: shared lists, integers and tests; what the program takes from Go and from third-party
--   packages (formatting, floats, JSON paths, regular expressions, hashes), which are parameters.
-- - Policy, Session: internal/policy/types.go and internal/session/session.go. Policy/Parse is parser.go
--   with fingerprint.go, and Policy/Lint is lint.go: Results, Fields, Tools and Content have its rules,
--   Cycle the search of rule L013 for circular dependencies.
-- - Engine: internal/engine. Engine/Types has the actions, decisions, calls and the query interface; a
--   module per evaluator has its Evaluate as `evaluate`; Engine/Pipeline is pipeline.go; Engine/Chain is
--   the chain of nine evaluators that `New` of internal/proxy/proxy.go builds; Engine/MemBackend and
--   Engine/StoreBackend are the two implementations of the query interface.
-- - Store: internal/store. A table is a list of rows in the order of insertion, Store/Rows has the rows,
--   and each file has the operations of the Go file of its name. Every operation takes the error that
--   the database driver meets, if any, and returns the store beside its result.
-- - Audit: internal/audit/sign.go and writer.go, pkg/audit/types.go.
-- - Proxy: internal/proxy. Proxy/Auth is auth.go with ValidateAgentJWT of internal/identity/jwt.go,
--   Proxy/Mcp is pkg/mcpparse with session.go, Proxy/PolicyCache is policy_cache.go, Proxy/Notify is
--   internal/escalation/notify.go, and `handleMCP` of proxy.go is Proxy/Dispatch (the request and the
--   virtual tool), Proxy/Govern (session, policy, pipeline, event, taint) and Proxy/Handler (audit record
--   and enforcement). Proxy/Reload is `New` and `ReloadPolicy`, and Proxy/Admin is admin.go with Approve
--   and Reject of internal/escalation/escalation.go. Proxy/State has the proxy's state,
--   a request, and the faults and clock of one request.
-- - WasmCore: cmd/wasm/core.go, the chain over a session that the host passes in.
-- - Replay: cmd/audit/replay.go, the calls of an audit log under a policy, without their arguments.
-- - PolicyDiff: cmd/policy/diff.go, what is printed of the differences of two policies.
-- - Tests: a concrete runtime, policy and store, and the theorems applied at them.
--
-- A request runs through authentication, the session middleware and the handler; the handler asks the
-- chain, whose evaluators query the store, records event and audit record, and enforces the decision.
--
-- Numbers: Go's int and int64 are integers, wrapped to 64 bits where the code computes with them; a time
-- is its nanoseconds; a float64 is its bits, and its operations are parameters. Loops are structural
-- recursion, except the search of rule L013: it takes one unit of fuel for each node it descends into,
-- and has one more than the names of the graph, each of which it enters at most once.
--
-- Not modelled: the rest of the command line, the health and stdio servers, YAML and JSON themselves,
-- logs and OTel spans, the text of JSON responses, and the concurrency of requests: one request is
-- handled at a time, and every reading of the clock during it gives the same time.
pub mod Base
pub mod Go
pub mod Policy
pub mod Session
pub mod Engine
pub mod Store
pub mod Audit
pub mod Proxy
pub mod WasmCore
pub mod Replay
pub mod PolicyDiff
pub mod Tests

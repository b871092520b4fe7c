-- ===== src/Tests.antt =====
-- Concrete inputs, and the theorems applied at them.
mod World
mod Evaluators
mod Decisions
mod Logs
mod Requests
mod Signatures
mod Queries
mod Policies
mod Approvals
mod Replays
mod Diffs
mod Wasm

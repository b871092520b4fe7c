-- ===== src/Engine.antt =====
-- internal/engine: the evaluation pipeline.
pub mod Types
pub mod Outcome
pub mod MayUse
pub mod Env
pub mod Budget
pub mod Delegation
pub mod Taint
pub mod RateLimit
pub mod History
pub mod Pipeline
pub mod MemBackend
pub mod StoreBackend
pub mod Chain
pub mod Content
pub mod Escalation
pub mod Sequence

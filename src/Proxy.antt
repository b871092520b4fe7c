-- ===== src/Proxy.antt =====
-- internal/proxy: the HTTP handlers in front of the evaluation pipeline.
pub mod Response
pub mod PolicyCache
pub mod Auth
pub mod Mcp
pub mod Notify
pub mod State
pub mod Handler
pub mod Govern
pub mod Dispatch
pub mod Reload
pub mod Admin

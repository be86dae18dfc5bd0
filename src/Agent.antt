-- ===== src/Agent.antt =====
-- internal/agent: the turn loop's message handling.
pub mod Messages
pub mod Sanitize
pub mod SanitizeIndexed
pub mod Payload
pub mod Groups
pub mod Truncate
pub mod Steering
pub mod Retry
pub mod ToolLoopGuard
pub mod TextTools
pub mod Prune
pub mod Turn

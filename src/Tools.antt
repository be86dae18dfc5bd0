-- ===== src/Tools.antt =====
-- internal/tools: what the model's tool calls run through.
pub mod Diff
pub mod Hunks
pub mod DiffText
pub mod Hashline
pub mod Mutation
pub mod Patch
pub mod Capture
pub mod ShellJob
pub mod Jobs
pub mod FileTools
pub mod Json
pub mod Schema
pub mod Approval
pub mod Execute

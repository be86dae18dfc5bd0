-- ===== src/Memory.antt =====
-- internal/memory: what the program keeps between turns.
pub mod Todo
mod Holds
pub mod Plan
pub mod PlanStore
pub mod TodoTable
pub mod Threads

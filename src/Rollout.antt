-- ===== src/Rollout.antt =====
-- internal/rollout/rollout.go: the staged canary rollout engine.
pub mod Types
pub mod Evaluate
pub mod Operations
pub mod Queries
pub mod Invariant
pub mod Preserve
pub mod History
pub mod Waves
pub mod Agreement
pub mod Sizes
pub mod Catchup
pub mod Progress
mod Tests

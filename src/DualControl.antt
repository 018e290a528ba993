-- ===== src/DualControl.antt =====
-- internal/dualcontrol/dualcontrol.go: the two-person approval workflow.
pub mod Types
pub mod Controller
pub mod System
pub mod Closing
pub mod CommitOnce
pub mod Approvers
pub mod Sound
pub mod Votes
pub mod Quorum
pub mod Outcome
mod Tests

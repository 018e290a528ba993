-- ===== src/Enrollment.antt =====
-- internal/enrollment/enrollment.go: the consumer that decides who joins the mesh.
pub mod Types
pub mod Services
pub mod Verify
pub mod Admission
pub mod Admit
pub mod Process
pub mod Sso
pub mod Approve
pub mod Drain
pub mod Moves
pub mod Passes
pub mod Methods
pub mod Draining
pub mod History
pub mod Decided
pub mod Backed
pub mod Reserved
pub mod Uses
pub mod Limits
pub mod Outcomes
mod Tests

-- ===== src/Trust.antt =====
-- internal/cloudtrust and internal/usertrust: which accounts and which directory groups may enroll
-- hosts, and into which groups.
pub mod Groups
pub mod Glob
pub mod Cloud
pub mod User
pub mod Privilege
mod Tests

-- ===== src/Policy.antt =====
-- internal/policy: the firewall policy of the fleet, its compilation and its analysis.
pub mod Text
pub mod Types
pub mod Check
pub mod Compile
pub mod Analysis
pub mod Laws
pub mod Keys
pub mod Reach
pub mod Baseline
mod Tests

-- ===== src/Lease.antt =====
-- internal/ipam/ipam.go: the leases of overlay addresses.
pub mod Types
pub mod Search
pub mod Operations
pub mod Scan
pub mod Free
pub mod Grant
pub mod Blocks
pub mod Registry
pub mod Invariant
pub mod Holds
pub mod History
mod Tests

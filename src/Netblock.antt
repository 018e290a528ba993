-- ===== src/Netblock.antt =====
-- internal/netblock/netblock.go: the named blocks of addresses that the pool is carved into.
pub mod Types
pub mod Registry
pub mod Resolve
pub mod Suggest
pub mod Placement
pub mod Apart
pub mod Carved
pub mod Writing
pub mod Growing
pub mod History
pub mod Acceptance
pub mod Parsed
pub mod Cache
mod Tests
mod CacheTests

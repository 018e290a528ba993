-- ===== src/Revocation.antt =====
-- internal/revocation/revocation.go: the blocklist of certificates, one by one and in bulk.
pub mod Registry
pub mod Requests
pub mod Guard
pub mod Bulk
mod Tests

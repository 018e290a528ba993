-- ===== src/Breaker.antt =====
-- internal/signer/breaker.go and breaker_sql.go: the ceiling on the rate of signing.
pub mod Calls
pub mod Memory
pub mod Sql
pub mod Limit
pub mod MemoryRefines
pub mod SqlRefines
pub mod Attempts
mod Tests

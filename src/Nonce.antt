-- ===== src/Nonce.antt =====
-- internal/nonce/nonce.go: the stateless nonces of enrollment.
pub mod Keyring
pub mod Bytes
pub mod RoundTrip
mod Tests

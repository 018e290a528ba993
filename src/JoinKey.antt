-- ===== src/JoinKey.antt =====
-- internal/joinkey/joinkey.go: the keys by which hosts without another identity join.
pub mod Keys

-- ===== src/Benchkv.antt =====
-- benchkv: a key-value store over daemons.
pub mod Storage

-- ===== src/Mempc.antt =====
-- mempc: channels between threads.
pub mod Lamport
pub mod Onesided
pub mod FetchAdd
pub mod UserData

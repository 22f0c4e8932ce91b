-- ===== src/Inproc.antt =====
-- inproc: calls between the threads of one process.
pub mod Flux

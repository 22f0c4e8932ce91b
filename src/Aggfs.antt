-- ===== src/Aggfs.antt =====
-- aggfs: a file system over daemons that own the chunks of a file in turn.
pub mod Routing
pub mod Store

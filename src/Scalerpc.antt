-- ===== src/Scalerpc.antt =====
-- scalerpc: RPC over connections that share pools of message slots in turn.
pub mod Protocol
pub mod Scheduler
pub mod Mapping
pub mod Pool

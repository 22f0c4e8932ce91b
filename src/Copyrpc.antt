-- ===== src/Copyrpc.antt =====
-- copyrpc: RPC over rings that are written by RDMA.
pub mod Encoding
pub mod Ring
pub mod Endpoint
pub mod Context

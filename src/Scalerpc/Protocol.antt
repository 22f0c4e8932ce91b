-- ===== src/Scalerpc/Protocol.antt =====
-- scalerpc/src/protocol.rs: the headers, entries and events on the wire. A structure is copied to
-- memory as it lies: packed fields in the order of declaration, little-endian as on the machines
-- that the program runs on. Fields are numbers below 2 ^ 16, 2 ^ 32 or 2 ^ 64.
pub mod Trailer
pub mod Request
pub mod Response
pub mod Events
mod Tests

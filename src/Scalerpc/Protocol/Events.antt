-- ===== src/Scalerpc/Protocol/Events.antt =====
-- `EndpointEntry` and `ContextSwitchEvent` of scalerpc/src/protocol.rs, in a module each.
pub mod EndpointEntry
pub mod ContextSwitchEvent

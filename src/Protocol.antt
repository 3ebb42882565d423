-- ===== src/Protocol.antt =====
-- crates/rfrp-common/src/protocol: the control protocol, from bytes to typed messages.
pub mod Wire
pub mod Frame
pub mod Messages
pub mod ProxyErrors

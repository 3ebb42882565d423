-- ===== src/Client.antt =====
-- crates/rfrpc/src: the client.
pub mod Reconnect
pub mod Registration
pub mod Control
pub mod Work
pub mod RunId
pub mod Proxies

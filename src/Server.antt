-- ===== src/Server.antt =====
-- crates/rfrps/src: the server.
pub mod State
pub mod Logins
pub mod Cleanup
pub mod Control
pub mod Channel
pub mod Registry
pub mod Dispatch
pub mod Work
pub mod Vhost
pub mod Udp
pub mod Loop
pub mod Connection
pub mod Accept
pub mod Steps

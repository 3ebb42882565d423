-- ===== src/Config.antt =====
-- crates/rfrp-common/src/config: the settings of both programs and their validation.
pub mod Ports
pub mod Client
pub mod Server

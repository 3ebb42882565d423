-- ===== src/Examples.antt =====
-- The theorems at concrete inputs, and the values that they are applied to.
pub mod Values
pub mod Wire
pub mod Logins
pub mod Routes
pub mod Users
pub mod Datagrams
pub mod Clients
pub mod Loops
pub mod Dashboards
pub mod Utilities

-- ===== src/Server.antt =====
-- server/: the receiver.
pub mod Events
pub mod State
pub mod Http
pub mod Prepare
pub mod Upload
pub mod Body
pub mod Cancel
pub mod Protected
pub mod Lifetime
pub mod Requests
pub mod WebShare

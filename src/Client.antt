-- ===== src/Client.antt =====
-- client/client.rs: the sender's requests and its check of the peer's certificate.
pub mod Requests
pub mod Verifier

-- ===== src/Sink.antt =====
-- core/sink.rs: how received files land on the disk, and under which names.
pub mod Names
pub mod Disk
pub mod Receive

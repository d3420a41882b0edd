-- ===== src/Discovery/Multicast.antt =====
-- discovery/multicast: the interfaces that multicast goes over, and the rounds of announcements.
pub mod Interfaces
pub mod Announcement
pub mod Device

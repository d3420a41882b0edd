-- ===== src/Discovery.antt =====
-- The discovery of devices. Of discovery/http.rs: Probe asks one host, Scan many, and Subnet
-- names the hosts of a network; Local is the discovery object. Multicast is discovery/multicast.rs.
pub mod Probe
pub mod Scan
pub mod Subnet
pub mod Local
pub mod Multicast

-- ===== src/Tests.antt =====
-- Instances of the theorems at concrete inputs, and the source's own unit tests of small functions.
mod Samples
mod Client
mod WebShare
mod Discovery
mod Multicast
mod Sink
mod Offers
mod Uploads
mod Sessions
mod Pins
mod Paths
mod Trust
mod Terminal

-- ===== src/Tests.antt =====
-- The theorems at concrete inputs.
mod Messages
mod Devices
mod Models
mod Servers
mod Pipeline

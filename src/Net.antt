-- ===== src/Net.antt =====
-- DeepSeerLib/src/Net and DeepSeerLib/src/Tls: connections over the event loop.
pub mod Socket
pub mod Flush
pub mod Connection
pub mod Tls
pub mod Listener
pub mod Address

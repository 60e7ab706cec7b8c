-- ===== src/Proxy.antt =====
-- DeepSeerLib/src/Proxy: the session of the proxy.
pub mod Session

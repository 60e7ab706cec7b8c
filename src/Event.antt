-- ===== src/Event.antt =====
-- DeepSeerLib/src/Event: the event loop.
pub mod Kqueue

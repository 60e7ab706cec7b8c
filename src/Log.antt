-- ===== src/Log.antt =====
-- DeepSeerLib/src/Log: the logger and the rotating file sink.
pub mod FileSink
pub mod Logger

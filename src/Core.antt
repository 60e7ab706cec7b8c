-- ===== src/Core.antt =====
-- DeepSeerLib/include/DeepSeer/Core and DeepSeerLib/src/Core: the slice buffer and the error type.
pub mod Types
pub mod Buffer

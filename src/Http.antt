-- ===== src/Http.antt =====
-- DeepSeerLib/include/DeepSeer/Http and DeepSeerLib/src/Http: headers, messages and the codec.
pub mod Headers
pub mod Message
pub mod Codec

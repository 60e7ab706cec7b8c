-- ===== src/Seer.antt =====
-- SeerLib: the queue of the inference engine, and the Magika model.
pub mod Engine
pub mod Magika
pub mod MagikaEngine

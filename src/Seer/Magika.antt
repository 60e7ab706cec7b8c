-- ===== src/Seer/Magika.antt =====
-- SeerLib/src/Magika/MagikaModel.cpp and SeerLib/include/Seer/Magika/MagikaModel.hpp. `Tokens` holds
-- the preprocessing, `Layers` the forward pass over an abstract type of floats, and `File` the reader
-- of weight files. An access out of range is `none`.
pub mod Tokens
pub mod Layers
pub mod Loops
pub mod Forward
pub mod File

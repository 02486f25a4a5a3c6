-- ===== src/Opcode.antt =====
-- include/Opcode.hpp: the instruction encoders.
pub mod Base
pub mod Fields
pub mod Arithmetic
pub mod Compare
pub mod Mov
pub mod Branch
pub mod LoadStore
pub mod IsWord
pub mod Layout

-- ===== src/Opcode/Layout.antt =====
-- The word of each instruction, field by field, as the A64 manual draws it.
pub mod Arithmetic
pub mod Mov
pub mod Branch
pub mod LoadStore
pub mod Immediate

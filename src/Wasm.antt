-- ===== src/Wasm.antt =====
-- include/Wasm.hpp: the class WasmFunction.
pub mod Types
pub mod Function
pub mod Branch
pub mod Stack
pub mod Initialize
pub mod Emit
pub mod Assemble
pub mod Jit
pub mod Process
pub mod Execute
pub mod Operands
pub mod Statements

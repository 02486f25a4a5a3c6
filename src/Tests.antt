-- ===== src/Tests.antt =====
-- Runs of the development at concrete inputs, and an instance of each theorem.
pub mod Compiling
pub mod Encoding
pub mod Loading
pub mod Operators
pub mod Modules
pub mod Frames
pub mod Statements
pub mod Texts
pub mod Chapters
pub mod Jit
pub mod Components

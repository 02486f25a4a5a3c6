-- ===== src/Utils.antt =====
-- include/Utils.h.
pub mod Hex
pub mod Parse
pub mod Binary
pub mod Leb
pub mod Lower

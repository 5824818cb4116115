-- ===== src/Mctomir.antt =====
-- The machine-code to MIR lifter: include/mctomir and lib/mctomir.
pub mod Inst
pub mod Decode
pub mod Sections
pub mod Blocks
pub mod Machine
pub mod Translate
pub mod Link
pub mod Finalize
pub mod Convert
pub mod Driver

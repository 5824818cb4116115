-- ===== src/Lifter.antt =====
-- The MIR to LLVM IR lifter: include/bleach/lifter and lib/lifter.
pub mod OrderedMap
pub mod Stats
pub mod Registers
pub mod Calls
pub mod Control
pub mod Generate
pub mod Values
pub mod StateType
pub mod Clone
pub mod Globals
pub mod Function
pub mod Module
pub mod Bleach

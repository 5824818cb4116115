-- ===== src/Lifter/Values/Typed.antt =====
-- The types of what is emitted.
pub mod Calls

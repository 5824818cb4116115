-- ===== src/Runtime.antt =====
-- The code that is linked into every lifted program: lib/lifter/section_intrinsics.cpp and
-- lib/lifter/symtab.cpp.
pub mod SectionLookup
pub mod Symtab

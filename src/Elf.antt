-- ===== src/Elf.antt =====
-- The ELF loader and the disassembler: include/mctomir/elf-loader.h and lib/mctomir/elf-loader.cpp.
pub mod Loader
pub mod Dump
pub mod Listing
pub mod Target

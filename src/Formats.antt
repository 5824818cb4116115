-- ===== src/Formats.antt =====
-- The YAML files: the symbols that mctomir writes and llvm-bleach reads, and the descriptions of
-- instructions.
pub mod Yaml
pub mod Symbols
pub mod Config

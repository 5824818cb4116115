-- ===== src/Lib.antt =====
-- llvm-bleach lifts machine code to LLVM IR. mctomir reads an ELF file and makes machine functions of
-- its code; the lifter turns these into IR functions that work on a state of registers and a stack;
-- the run-time part is linked into what was lifted.
--
-- Elf: lib/mctomir/elf-loader.cpp.
--   Loader        `elf_loader`: `load_file`, sections, header fields.
--   Target        `elf_disassembler::initialize` and `get_disasm_features`.
--   Dump          `dump_section`, as rows of cells.
--   Listing       `disassemble_bytes` and `disassemble_section`, as lines.
-- Mctomir: lib/mctomir/mctomir-transform.cpp and include/mctomir/mctomir-transform.h.
--   Inst          instructions, and the structures of a translation.
--   Decode        `process_disassembly`: functions from symbols, and the decoding loop.
--   Sections      `read_sections`.
--   Blocks        `identify_basic_blocks`.
--   Machine       machine blocks by identity, and the map from addresses to blocks.
--   Translate     `create_machine_basic_blocks`, `translate_instructions`, `create_machine_instr`.
--   Link          `link_machine_basic_blocks`.
--   Finalize      `finalize`, the four passes in order.
--   Convert       `convert_section`, from the section to the passes.
--   Driver        `process_file` and `lift_elf_file`, from the file to the translation.
-- Lifter: lib/lifter/lifter.cpp and include/bleach/lifter/lifter.hpp.
--   OrderedMap    `std::map` from registers, as a list with rising keys.
--   Stats         `register_class`, `register_stats`, and their collection.
--   Registers     `materialize_registers`, `save_registers`, `load_registers`.
--   Calls         `generate_call`, `save_registers_before_return`, and how emitted code runs.
--   Control       `is_return`, `is_call`, `is_branch`, and the code of branches.
--   Generate      `generate_instruction`, `fill_ir_for_bb`, and the stack.
--   StateType     `create_state_type` and `print_state_struct_definition`.
--   Clone         `create_basic_blocks_for_mfunc` and what it calls.
--   Globals       `create_section_globals`, `create_sections_array_global`, the look-up function.
--   Module        the clones of all functions, and their calls, in `bleach_module`.
--   Bleach        `bleach_module`, the composition of these.
--   Function      `generate_function` and `fill_symtab_at`.
--   Values        the values of operands, casts, calls and stores, in the modules
--     Instructions  what is emitted for each kind of instruction,
--     Machine, Exec what the instructions mean, with no code,
--     Run           how emitted operations run,
--     Typed         the types of the arguments of calls.
-- Formats: files in YAML, with the YAML library as a record of operations with laws.
--   Symbols       lib/mctomir/symbols.cpp and include/mctomir/symbols.h.
--   Config        lib/lifter/instr-impl.cpp and include/bleach/lifter/instr-impl.hpp.
-- Passes: lib/passes/redundant-branch-eraser.cpp, on blocks and on the functions of a module.
-- Tools: tools/mctomir/mctomir.cpp, tools/llvm-bleach/llvm-bleach.cpp, and
--   lib/passes/block-ir-builder.cpp, from the parsed options to the exit code, with the header of the
--   state that `bleach_module` prints.
-- Runtime: lib/lifter/section_intrinsics.cpp and lib/lifter/symtab.cpp.
-- Base holds what they share; Examples holds tests and the theorems at small inputs.
--
-- A state is a record that each operation takes and returns; what throws, asserts or returns an
-- `Error` returns a `Result`, with one constructor for each cause. Identities of machine blocks and
-- functions are numbers. Addresses are numbers below 2 ^ 64, with the wrap-around written out.
-- LLVM is a parameter: what it reads of a file, decodes, makes for a target, and says of an opcode.
--
-- Bounds: the decoding loop gets as much fuel as the range of the function has addresses, and one
-- more, since each round goes on by at least one address; the listing and the dump likewise get one
-- round for each byte. A decoder that takes no bytes would keep the code in these loops for ever.
--
-- A lifted instruction is modelled twice: Control and Generate have the blocks and terminators that it
-- makes, with the operands as arguments; Values has the values, for the instructions that stay in
-- their block. The functions of the configuration are a parameter of both.
--
-- Not modelled: the making of LLVM objects, the text of messages and of printed numbers, the modules
-- that `bleach_module` links in and its clean-up at the end, the declarations in the header that it
-- prints, the parsing of options and of MIR files. The listing is that of a disassembler that is
-- initialized before, and `translate_instructions` does not repeat the check of `tii`. The arguments of an indirect branch, and the block in which the loads for
-- the condition of a branch are placed, are left out. A slot of the stack holds one value: that a
-- wider load reaches into the next slot is not modelled.
pub mod Base
pub mod Elf
pub mod Mctomir
pub mod Formats
pub mod Lifter
pub mod Passes
pub mod Runtime
pub mod Tools
pub mod Examples

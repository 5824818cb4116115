-- ===== src/Mctomir/Driver.antt =====
-- From a file to its translation: `translator_t::initialize`, `elf_to_mir_converter::process_file` and
-- `lift_elf_file` (lib/mctomir/mctomir-transform.cpp). `TranslatorFactories` says what LLVM can make;
-- what it makes is not looked at.
pub mod Laws
use llvm_bleach.Base.{
  map_error, Bool, false, String, List, [], Option, none, Result, ok, err, ◌>>=◌, if◌then◌else◌,
}
use llvm_bleach.Elf.Loader.{Files, ElfLoader, ElfError, load_file}
use llvm_bleach.Elf.Target.{
  Arch, Factories, InitError, Disassembler, initialize, get_triple, get_disasm_features,
}
use llvm_bleach.Mctomir.Inst.{TranslatedFunction}
use llvm_bleach.Mctomir.Machine.{Machine}
use llvm_bleach.Mctomir.Sections.{SectionInfo, read_sections}
use llvm_bleach.Mctomir.Convert.{Llvm, ConvertError, convert_section}

pub record TranslatorFactories : Type 0 where
  pub lookup_target : Arch → Bool
  pub target_machine : Arch → String → Bool
  pub subtarget_info : Arch → String → Bool
  pub instr_info : Arch → String → Bool
  pub register_info : Arch → String → Bool

pub data TranslatorError : Type 0 where
  no_target no_target_machine no_subtarget_info no_instr_info no_register_info : TranslatorError

pub data ProcessError : Type 0 where
  in_load : ElfError → ProcessError
  in_disassembler : InitError → ProcessError
  in_translator : TranslatorError → ProcessError

-- The texts in front of the messages that `lift_elf_file` throws.
pub data LiftFileError : Type 0 where
  failed_to_process : ProcessError → LiftFileError
  failed_to_convert : ConvertError → LiftFileError
  failed_to_read : ElfError → LiftFileError

pub record TranslationResult : Type 0 where
  pub funcs : List TranslatedFunction
  pub machine : Machine
  pub sections : List SectionInfo

abbrev pub require : Bool → TranslatorError → Result TranslatorError (Unit {0})
require made e = if made then ok tt else err e

unfoldable pub create_module_and_function :
    TranslatorFactories → Arch → String → Result TranslatorError (Unit {0})
create_module_and_function tfs triple features = do
  target ← require (tfs.lookup_target triple) no_target
  require (tfs.target_machine triple features) no_target_machine

unfoldable pub initialize_translator :
    TranslatorFactories → Arch → String → Result TranslatorError (Unit {0})
initialize_translator tfs triple features = do
  module_made ← create_module_and_function tfs triple features
  tsi ← require (tfs.subtarget_info triple features) no_subtarget_info
  tii ← require (tfs.instr_info triple features) no_instr_info
  require (tfs.register_info triple features) no_register_info

-- A loader and a disassembler as they are made.
abbrev pub new_loader : ElfLoader
new_loader = record { buffer = none; obj_file = none; elf_obj = none }

abbrev pub new_disassembler : Disassembler
new_disassembler = record {
  target = false;
  mri = false;
  mai = false;
  sti = none;
  mii = false;
  dis_asm = false;
  inst_printer = false;
  initialized = false;
}

unfoldable pub process_file :
    Files → Factories → TranslatorFactories → String → Result ProcessError ElfLoader
process_file files fs tfs file_path =
    let (loader, loaded) = load_file files file_path new_loader in
    do
      load_done ← map_error in_load loaded
      init_done ← map_error in_disassembler (initialize fs loader new_disassembler).1
      triple ← map_error in_disassembler (get_triple fs loader)
      features ← map_error in_disassembler (get_disasm_features fs loader)
      translator_done ← map_error in_translator (initialize_translator tfs triple features)
      ok loader

-- The translator is new: it has no functions, no machine blocks and no sections.
unfoldable pub lift_elf_file :
    Files → Factories → TranslatorFactories → Llvm → String → Result LiftFileError TranslationResult
lift_elf_file files fs tfs llvm input_filename = do
  loader ← map_error failed_to_process (process_file files fs tfs input_filename)
  (funcs, machine) ←
      map_error failed_to_convert
        (convert_section llvm loader ".text" [] (record { mbbs = []; address_to_mbb = [] }))
  sections ← map_error failed_to_read (read_sections loader)
  ok (record { funcs = funcs; machine = machine; sections = sections })

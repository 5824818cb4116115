-- ===== src/Tools/Bleach.antt =====
-- The tool `llvm-bleach` (tools/llvm-bleach/llvm-bleach.cpp) and the pass that it runs the lifter by
-- (lib/passes/block-ir-builder.cpp), with the header that `bleach_module` prints at its end
-- (lib/lifter/lifter.cpp). The options are as `cl::ParseCommandLineOptions` leaves them. `Llvm` stands
-- for LLVM's and MLIR's part: the parser of MIR files, modules as the lifter sees them, the passes, and
-- the translation to MLIR. The verifier of LLVM, which runs last, changes nothing and is left out.
pub mod Types
pub mod Header
pub mod Outcome
pub mod Steps
pub mod Output
pub mod Laws
use text.Mathlib.Text.{◌==◌ as str_eq}
use llvm_bleach.Base.{Bool, String, [], Option, none, some, Result, ok, or_error, if◌then◌else◌}
use llvm_bleach.Formats.Yaml.{Yaml}
use llvm_bleach.Formats.Symbols.{FileInfo, load_file_info_from_yaml}
use llvm_bleach.Formats.Config.{InstrImpl}
use llvm_bleach.Formats.Config.File.{save_to_yaml, load_from_yaml}
use llvm_bleach.Mctomir.Driver.{TranslationResult, LiftFileError}
use llvm_bleach.Lifter.Bleach.{Settings, BleachedModule, bleach_module}
use llvm_bleach.Passes.Functions.{erase_module}
use llvm_bleach.Tools.{Sink, Tool, Exit, ◌>>=◌, done, write, throw, lift_result, catch_all}
pub use llvm_bleach.Tools.Bleach.Types.{OutputType, Options, InputMir, ToolError, Llvm, Content}
unfoldable pub use llvm_bleach.Tools.Bleach.Header.{print_state_header, write_state_header}

module _ {Node Text IrModule Mlir : Type 0} (y : Yaml Node Text)
    (llvm : Llvm Text IrModule Mlir) where
  abbrev pub Main : Type 0 → Type 0
  Main A = Tool (Content Text IrModule Mlir) ToolError A

  abbrev pub is_mir_file : String → Bool
  is_mir_file filename = str_eq (llvm.extension filename) ".mir"

  -- `lifted` is what `lift_elf_file` gives for the file.
  unfoldable pub read_or_translate_mir :
      String → Result LiftFileError TranslationResult → Main InputMir
  read_or_translate_mir input_file lifted =
      if is_mir_file input_file
      then (do
        m ← lift_result ToolError.in_mir_parser (llvm.parse_mir input_file)
        ([], ok (record { globals = m.0; functions = m.1; funcs = []; sections = [] })))
      else (do
        translated ← lift_result ToolError.in_lift lifted
        let m = llvm.module_of translated
        (
          [],
          ok (record {
            globals = m.0;
            functions = m.1;
            funcs = translated.funcs;
            sections = translated.sections;
          }),
        ))

  abbrev pub write_instructions : String → Text → Main (Unit {0})
  write_instructions name yaml_str =
      if llvm.can_open name
      then write (Sink.file name) (Content.instructions yaml_str)
      else throw (ToolError.cannot_open name)

  unfoldable pub dump_instructions : Options → InstrImpl IrModule → Main (Unit {0})
  dump_instructions options instrs = elim options.dump_input_instructions [
    | none ↦ done
    | some name ↦
        lift_result ToolError.in_config (save_to_yaml y llvm.print_ir instrs)
        >>= write_instructions name
  ]

  -- A stream that is not open has no text.
  abbrev pub contents_of : String → Text
  contents_of name = elim (llvm.read_file name) [ some text ↦ text | none ↦ llvm.no_text ]

  unfoldable pub load_symtab : Options → Main (Option FileInfo)
  load_symtab options = elim options.symtab_file [
    | none ↦ ([], ok none)
    | some name ↦ (do
      finfo ← lift_result ToolError.in_symtab (load_file_info_from_yaml y (contents_of name))
      ([], ok (some finfo)))
  ]

  abbrev pub print_machine_functions : Options → InputMir → Main (Unit {0})
  print_machine_functions options input =
      if options.dump_input_mir
      then write Sink.standard_output (Content.machine_functions input.functions)
      else done

  -- What `block_ir_builder_pass` gives to `bleach_module`.
  abbrev pub settings_of :
      Settings → Options → InputMir → InstrImpl IrModule → Option FileInfo → Settings
  settings_of target options input instrs finfo = record target {
    regclasses = instrs.regclasses;
    subregs = instrs.subregisters;
    stack_pointer = instrs.stack_pointer;
    state_struct_file = options.dump_struct_def_option;
    trfinfo = input.funcs;
    sections = input.sections;
    stack_size = options.stack_size_option;
    finfo = finfo;
    lifted_prefix = options.lifted_prefix;
    assume_functions_nop = options.assume_function_nop;
  }

  -- `block_ir_builder_pass`
  unfoldable pub run_block_ir_builder : Settings → InputMir → Main BleachedModule
  run_block_ir_builder s input = do
    m ← lift_result ToolError.in_bleach (bleach_module s input.globals input.functions)
    printed ← write_state_header llvm s.state_struct_file m
    ([], ok m)

  -- The passes behind the one that lifts.
  abbrev pub run_passes : Options → BleachedModule → IrModule
  run_passes options m =
      let erased = llvm.ir_of (erase_module m) in
      llvm.sroa (if options.no_inline_opt then erased else llvm.inliner erased)

  abbrev pub output_content : OutputType → IrModule → Main (Content Text IrModule Mlir)
  output_content OutputType.llvm m = ([], ok (Content.ir_module m))
  output_content OutputType.mlirllvm m = elim (llvm.translate m) [
    | some mlir ↦ ([], ok (Content.mlir_module mlir))
    | none ↦ throw ToolError.no_mlir
  ]

  abbrev pub open_output : Options → Main Sink
  open_output options =
      let name = options.output_filename in
      if str_eq name "-"
      then ([], ok Sink.standard_output)
      else if llvm.can_open name
      then ([], ok (Sink.file name))
      else throw (ToolError.cannot_open name)

  unfoldable pub write_output : Options → IrModule → Main (Unit {0})
  write_output options m = do
    content ← output_content options.output_type m
    os ← open_output options
    write os content

  -- `target` has what `bleach_module` asks LLVM.
  unfoldable pub lift_and_write : Settings → Options → InputMir → String → Main (Unit {0})
  lift_and_write target options input file_name = do
    yaml ← lift_result ToolError.cannot_open (or_error (llvm.read_file file_name) file_name)
    instrs ← lift_result ToolError.in_config (load_from_yaml y llvm.parse_ir yaml)
    dumped ← dump_instructions options instrs
    finfo ← load_symtab options
    printed ← print_machine_functions options input
    m ← run_block_ir_builder (settings_of target options input instrs finfo) input
    write_output options (run_passes options m)

  -- Without a file of instructions there is nothing to lift by.
  abbrev pub with_instructions : Settings → Options → InputMir → Option String → Main (Unit {0})
  with_instructions target options input none = write Sink.standard_error Content.skipping
  with_instructions target options input (some file_name) =
      lift_and_write target options input file_name

  unfoldable pub run : Settings → Options → Result LiftFileError TranslationResult → Main (Unit {0})
  run target options lifted = do
    input ← read_or_translate_mir options.input_file_name lifted
    with_instructions target options input options.instructions_file

  unfoldable pub main :
      Settings
      → Options
      → Result LiftFileError TranslationResult
      → Exit (Content Text IrModule Mlir)
  main target options lifted = catch_all Content.error_message (run target options lifted)

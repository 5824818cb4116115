-- ===== src/Tools/Bleach/Outcome.antt =====
-- What `llvm-bleach` is to write, and what it fails by (tools/llvm-bleach/llvm-bleach.cpp), as relations
-- between its options, the files, and LLVM's part.
use text.Mathlib.Text.{◌==◌ as str_eq}
use llvm_bleach.Base.{◌≡◌, Bool, true, false, String, [], Option, none, some, ◌⊎◌, Result, ok, err}
use llvm_bleach.Formats.Yaml.{Yaml, YamlError}
use llvm_bleach.Formats.Symbols.{FileInfo, load_file_info_from_yaml}
use llvm_bleach.Formats.Config.{InstrImpl, ConfigError}
use llvm_bleach.Formats.Config.File.{save_to_yaml, load_from_yaml}
use llvm_bleach.Mctomir.Driver.{TranslationResult, LiftFileError}
use llvm_bleach.Lifter.StateType.{PrintError, print_members}
use llvm_bleach.Lifter.Bleach.{Settings, BleachedModule, BleachError, bleach_module}
use llvm_bleach.Passes.Functions.{erase_module}
use llvm_bleach.Tools.Bleach.{OutputType, Options, InputMir, ToolError, Llvm, Content}

module _ {Node Text IrModule Mlir : Type 0} (y : Yaml Node Text)
    (llvm : Llvm Text IrModule Mlir) where
  abbrev pub is_module : Content Text IrModule Mlir → Bool
  is_module (Content.ir_module m) = true
  is_module (Content.mlir_module m) = true
  is_module _ = false

  -- A file that cannot be opened has no text.
  abbrev pub IsTextOf : String → Text → Type 0
  IsTextOf name text =
      (llvm.read_file name ≡ some text) ⊎ ((llvm.read_file name ≡ none) × (text ≡ llvm.no_text))

  module _ (target : Settings) (options : Options)
      (lifted : Result LiftFileError TranslationResult) where
    -- A MIR file is parsed, and has no translated functions and no sections; any other file is the
    -- translated one.
    abbrev pub IsInput : InputMir → Type 0
    IsInput input =
        ((str_eq (llvm.extension options.input_file_name) ".mir" ≡ true)
          × (llvm.parse_mir options.input_file_name ≡ ok (input.globals, input.functions))
          × (input.funcs ≡ [])
          × (input.sections ≡ []))
        ⊎ ((str_eq (llvm.extension options.input_file_name) ".mir" ≡ false)
            × ((res : TranslationResult) × (lifted ≡ ok res)
                × (llvm.module_of res ≡ (input.globals, input.functions))
                × (input.funcs ≡ res.funcs)
                × (input.sections ≡ res.sections)))

    -- The instructions of the file that is given for them.
    abbrev pub IsInstructions : InstrImpl IrModule → Type 0
    IsInstructions instrs =
        (name : String) × (text : Text) × (options.instructions_file ≡ some name)
        × (llvm.read_file name ≡ some text)
        × (load_from_yaml y llvm.parse_ir text ≡ ok instrs)

    -- The symbols of the file that is given for them, if one is given.
    abbrev pub IsSymbols : Option FileInfo → Type 0
    IsSymbols finfo =
        ((options.symtab_file ≡ none) × (finfo ≡ none))
        ⊎ ((name : String) × (text : Text) × (symbols : FileInfo) × (options.symtab_file
              ≡ some name)
            × IsTextOf name text
            × (load_file_info_from_yaml y text ≡ ok symbols)
            × (finfo ≡ some symbols))

    -- The lifter gives `r` for the input, the instructions, the symbols and the options.
    abbrev pub Bleaches : Result BleachError BleachedModule → Type 0
    Bleaches r =
        (input : InputMir) × (instrs : InstrImpl IrModule) × (finfo : Option FileInfo) × IsInput
          input
        × IsInstructions instrs
        × IsSymbols finfo
        × (bleach_module
              (record target {
                regclasses = instrs.regclasses;
                subregs = instrs.subregisters;
                stack_pointer = instrs.stack_pointer;
                state_struct_file = options.dump_struct_def_option;
                trfinfo = input.funcs;
                sections = input.sections;
                stack_size = options.stack_size_option;
                finfo = finfo;
                lifted_prefix = options.lifted_prefix;
                assume_functions_nop = options.assume_function_nop;
              })
              input.globals input.functions
            ≡ r)

    -- The module behind the passes: the redundant branches are erased, the inliner runs unless the
    -- options forbid it, then SROA.
    abbrev pub IsPassed : BleachedModule → IrModule → Type 0
    IsPassed m ir =
        ((options.no_inline_opt ≡ true) × (ir ≡ llvm.sroa (llvm.ir_of (erase_module m))))
        ⊎ ((options.no_inline_opt ≡ false)
            × (ir ≡ llvm.sroa (llvm.inliner (llvm.ir_of (erase_module m)))))

    abbrev pub IsLifted : IrModule → Type 0
    IsLifted ir = (m : BleachedModule) × Bleaches (ok m) × IsPassed m ir

    -- The notice, without a file of instructions; else the lifted module in the form of the options.
    pub data IsOutputOf : Content Text IrModule Mlir → Type 0 where
      skipped : options.instructions_file ≡ none → IsOutputOf Content.skipping
      as_llvm :
          {ir : IrModule}
          → options.output_type ≡ OutputType.llvm
          → IsLifted ir
          → IsOutputOf (Content.ir_module ir)
      as_mlir :
          {ir : IrModule} {mlir : Mlir}
          → options.output_type ≡ OutputType.mlirllvm
          → IsLifted ir
          → llvm.translate ir ≡ some mlir
          → IsOutputOf (Content.mlir_module mlir)

    -- The step that an error comes from fails.
    pub data IsErrorOf : ToolError → Type 0 where
      in_mir_parser :
          {e : String}
          → str_eq (llvm.extension options.input_file_name) ".mir" ≡ true
          → llvm.parse_mir options.input_file_name ≡ err e
          → IsErrorOf (ToolError.in_mir_parser e)
      in_lift :
          {e : LiftFileError}
          → str_eq (llvm.extension options.input_file_name) ".mir" ≡ false
          → lifted ≡ err e
          → IsErrorOf (ToolError.in_lift e)
      no_instructions :
          {name : String}
          → options.instructions_file ≡ some name
          → llvm.read_file name ≡ none
          → IsErrorOf (ToolError.cannot_open name)
      in_config :
          {name : String} {text : Text} {e : ConfigError}
          → options.instructions_file ≡ some name
          → llvm.read_file name ≡ some text
          → load_from_yaml y llvm.parse_ir text ≡ err e
          → IsErrorOf (ToolError.in_config e)
      in_dump :
          {name : String} {instrs : InstrImpl IrModule} {e : ConfigError}
          → IsInstructions instrs
          → options.dump_input_instructions ≡ some name
          → save_to_yaml y llvm.print_ir instrs ≡ err e
          → IsErrorOf (ToolError.in_config e)
      no_dump :
          {name : String}
          → options.dump_input_instructions ≡ some name
          → llvm.can_open name ≡ false
          → IsErrorOf (ToolError.cannot_open name)
      in_symtab :
          {name : String} {text : Text} {e : YamlError}
          → options.symtab_file ≡ some name
          → IsTextOf name text
          → load_file_info_from_yaml y text ≡ err e
          → IsErrorOf (ToolError.in_symtab e)
      in_bleach : {e : BleachError} → Bleaches (err e) → IsErrorOf (ToolError.in_bleach e)
      in_header :
          {m : BleachedModule} {e : PrintError}
          → Bleaches (ok m)
          → print_members m.stats m.state ≡ err e
          → IsErrorOf (ToolError.in_header e)
      no_state_file :
          llvm.can_open options.dump_struct_def_option ≡ false
          → IsErrorOf (ToolError.no_state_file options.dump_struct_def_option)
      no_mlir :
          {ir : IrModule}
          → options.output_type ≡ OutputType.mlirllvm
          → IsLifted ir
          → llvm.translate ir ≡ none
          → IsErrorOf ToolError.no_mlir
      no_output :
          llvm.can_open options.output_filename ≡ false
          → IsErrorOf (ToolError.cannot_open options.output_filename)

-- ===== src/Tools/Bleach/Types.antt =====
-- The options of `llvm-bleach` and what it writes (tools/llvm-bleach/llvm-bleach.cpp).
use llvm_bleach.Base.{ℕ, Bool, String, List, Option, Result}
use llvm_bleach.Formats.Yaml.{YamlError}
use llvm_bleach.Formats.Config.{ConfigError}
use llvm_bleach.Mctomir.Inst.{TranslatedFunction}
use llvm_bleach.Mctomir.Sections.{SectionInfo}
use llvm_bleach.Mctomir.Driver.{TranslationResult, LiftFileError}
use llvm_bleach.Lifter.Globals.{GlobalVariable}
use llvm_bleach.Lifter.Module.{SourceFunction}
use llvm_bleach.Lifter.StateType.{MemberLine, PrintError}
use llvm_bleach.Lifter.Bleach.{BleachedModule, BleachError}

pub data OutputType : Type 0 where
  llvm mlirllvm : OutputType

pub record Options : Type 0 where
  pub input_file_name : String
  pub instructions_file : Option String
  pub dump_input_mir : Bool
  pub dump_input_instructions : Option String
  pub no_inline_opt : Bool
  pub assume_function_nop : Bool
  pub dump_struct_def_option : String
  pub stack_size_option : ℕ
  pub symtab_file : Option String
  pub lifted_prefix : String
  pub output_filename : String
  pub output_type : OutputType

-- `input_mir`: the module, as the lifter reads it, and what a translated file adds to it.
pub record InputMir : Type 0 where
  pub globals : List GlobalVariable
  pub functions : List SourceFunction
  pub funcs : List TranslatedFunction
  pub sections : List SectionInfo

pub data ToolError : Type 0 where
  in_lift : LiftFileError → ToolError
  in_mir_parser : String → ToolError
  in_config : ConfigError → ToolError
  in_symtab : YamlError → ToolError
  in_bleach : BleachError → ToolError
  -- An assertion in the printer of the header.
  in_header : PrintError → ToolError
  -- `Could not open file "…"`
  no_state_file : String → ToolError
  -- `Failed to open file "…"`, and the message of an error code
  cannot_open : String → ToolError
  -- `Failed to translate LLVM IR to MLIR LLVM dialect`
  no_mlir : ToolError

-- `IrModule` is a module of LLVM.
pub record Llvm (Text IrModule Mlir : Type 0) : Type 0 where
  pub extension : String → String
  pub parse_mir : String → Result String (List GlobalVariable × List SourceFunction)
  pub module_of : TranslationResult → List GlobalVariable × List SourceFunction
  pub parse_ir : String → Option IrModule
  pub print_ir : IrModule → String
  pub ir_of : BleachedModule → IrModule
  pub inliner : IrModule → IrModule
  pub sroa : IrModule → IrModule
  pub translate : IrModule → Option Mlir
  pub read_file : String → Option Text
  pub no_text : Text
  pub can_open : String → Bool

-- What is written: the notice that there are no instructions, the instructions, the machine
-- functions, the header (the members of the state struct, and the lifted functions, of which it
-- declares those whose names have no special characters), the module in one of its two forms, and the
-- message of an error.
pub data Content (Text IrModule Mlir : Type 0) : Type 0 where
  skipping : Content Text IrModule Mlir
  instructions : Text → Content Text IrModule Mlir
  machine_functions : List SourceFunction → Content Text IrModule Mlir
  state_header : List MemberLine → List String → Content Text IrModule Mlir
  ir_module : IrModule → Content Text IrModule Mlir
  mlir_module : Mlir → Content Text IrModule Mlir
  error_message : ToolError → Content Text IrModule Mlir

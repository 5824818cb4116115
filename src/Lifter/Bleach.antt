-- ===== src/Lifter/Bleach.antt =====
-- `bleach_module` (lib/lifter/lifter.cpp) as the composition of its steps, up to the names of the lifted
-- functions. The header that it prints, with the error of a file that cannot be opened, stands with
-- the tool (Tools/Bleach). Left out: the modules that are linked in, and the removal of functions that
-- are not needed any more. The functions are taken in the order of the list. `assume_functions_nop`
-- decides the loads behind calls, which are the matter of Lifter/Calls.
pub mod Laws
use Prim.Native.String.{◌++◌ as append}
use llvm_bleach.Base.{
  map_error, ℕ, suc, Bool, true, false, String, List, [], ◌∷◌, ◌++◌, map, Option, none, some,
  Result, ok, err, ◌>>=◌, length,
}
use llvm_bleach.Mctomir.Inst.{TranslatedFunction}
use llvm_bleach.Mctomir.Machine.{MachineOperand, MachineInstr, MachineBlock}
use llvm_bleach.Mctomir.Sections.{SectionInfo}
use llvm_bleach.Formats.Symbols.{FileInfo, SymbolError}
use llvm_bleach.Lifter.Stats.{RegisterClass, Target, StatsError, collect_register_stats}
use llvm_bleach.Lifter.StateType.{ArrayType, create_state_type}
use llvm_bleach.Lifter.Control.{Queries, Emit, IrBlock}
use llvm_bleach.Lifter.Globals.{
  GlobalVariable, GlobalsError, AddrLookup, create_sections, create_addr_lookup_func,
}
use llvm_bleach.Lifter.Function.{
  FunctionError, MachineCode, IrFunction, find_register_by_name, translated_blocks,
  generate_function, fill_symtab_at,
}
use llvm_bleach.Lifter.Module.{ModuleError, SourceFunction, ClonedFunction, clone_module}

pub data BleachError : Type 0 where
  in_stats : StatsError → BleachError
  in_clones : ModuleError → BleachError
  in_globals : GlobalsError → BleachError
  in_function : FunctionError → BleachError
  in_symbols : SymbolError → BleachError

-- What is given to `bleach_module`, and what LLVM says. The numbers of the new blocks and of the new
-- functions follow `next_block` and `next`.
pub record Settings : Type 0 where
  pub q : Queries
  pub is_branch : ℕ → Bool
  pub replace_successor : ℕ → ℕ → List ℕ → List ℕ
  pub target : Target
  pub regclasses : List (String × String)
  pub subregs : List (String × String)
  pub get_name : ℕ → String
  pub llvm_classes : List (List ℕ)
  pub stack_pointer : String
  pub get_global_variable : String → List GlobalVariable → Option ℕ
  pub trfinfo : List TranslatedFunction
  pub sections : List SectionInfo
  pub state_struct_file : String
  pub stack_size : ℕ
  pub finfo : Option FileInfo
  pub lifted_prefix : String
  pub assume_functions_nop : Bool
  pub address_of : ℕ → ℕ
  pub next_block : ℕ
  pub next : ℕ

-- `entry_calls` are the calls of `bleach_symtab_add` at the entry.
pub record LiftedFunction : Type 0 where
  pub name : String
  pub code : Emit
  pub entry_calls : List (ℕ × ℕ)

pub record BleachedModule : Type 0 where
  pub stats : List RegisterClass
  pub state : List ArrayType
  pub globals : List GlobalVariable
  pub lookup : AddrLookup
  pub functions : List LiftedFunction

abbrev pub operand_regs : List MachineOperand → List ℕ
operand_regs [] = []
operand_regs (MachineOperand.reg r f ∷ ops) = r ∷ operand_regs ops
operand_regs (_ ∷ ops) = operand_regs ops

abbrev pub instr_regs : List MachineInstr → List ℕ
instr_regs [] = []
instr_regs (i ∷ is) = operand_regs i.operands ++ instr_regs is

-- The register operands of a function, in order.
abbrev pub function_regs : List (ℕ × MachineBlock) → List ℕ
function_regs [] = []
function_regs ((n, b) ∷ bs) = instr_regs b.instrs ++ function_regs bs

abbrev pub number_blocks : ℕ → List MachineBlock → List MachineCode
number_blocks n [] = []
number_blocks n (b ∷ bs) = record { id = n; instrs = b.instrs } ∷ number_blocks (suc n) bs

abbrev pub start_of_code : Settings → Emit
start_of_code s = record { here = IrBlock.of_mbb s.next_block; out = []; made = 0; tracker = [] }

unfoldable pub generate_clone : Settings → ClonedFunction → Result BleachError Emit
generate_clone s c = do
  trblocks ← map_error in_function (translated_blocks s.trfinfo c.name)
  map_error in_function (
      generate_function s.q (find_register_by_name s.get_name s.llvm_classes s.stack_pointer)
        s.stack_pointer trblocks (number_blocks s.next_block c.blocks) (start_of_code s))

unfoldable pub generate_clones : Settings → List ClonedFunction → Result BleachError (List Emit)
generate_clones s [] = ok []
generate_clones s (c ∷ cs) = do
  code ← generate_clone s c
  rest ← generate_clones s cs
  ok (code ∷ rest)

abbrev pub has_no_blocks : ClonedFunction → Bool
has_no_blocks c = elim c.blocks [ [] ↦ true | b ∷ bs ↦ false ]

abbrev pub ir_function : Settings → ClonedFunction → IrFunction
ir_function s c = record { name = c.name; address = s.address_of c.id; is_empty = has_no_blocks c }

-- Each function with code gets the calls for all of them, if there are symbols.
unfoldable pub entry_calls_of :
    Settings → List ClonedFunction → ClonedFunction → Result BleachError (List (ℕ × ℕ))
entry_calls_of s translated c = elim s.finfo [
  | none ↦ ok []
  | some finfo ↦ elim (has_no_blocks c) [
    | true ↦ ok []
    | false ↦ map_error in_symbols (fill_symtab_at (map (ir_function s) translated) finfo [])
  ]
]

-- The calls at the entries, and the names with the prefix.
unfoldable pub finish_functions :
    Settings
    → List ClonedFunction
    → List ClonedFunction
    → List Emit
    → Result BleachError (List LiftedFunction)
finish_functions s translated [] codes = ok []
finish_functions s translated (c ∷ cs) [] = ok []
finish_functions s translated (c ∷ cs) (code ∷ codes) = do
  calls ← entry_calls_of s translated c
  rest ← finish_functions s translated cs codes
  ok (record { name = append s.lifted_prefix c.name; code = code; entry_calls = calls } ∷ rest)

unfoldable pub bleach_module :
    Settings → List GlobalVariable → List SourceFunction → Result BleachError BleachedModule
bleach_module s m fs = do
  stats ← map_error in_stats (
      collect_register_stats s.target s.regclasses s.subregs (map (λ f. function_regs f.blocks) fs))
  translated ←
      map_error in_clones (clone_module s.q s.is_branch s.replace_successor s.next_block s.next fs)
  (globals, table) ← map_error in_globals (create_sections s.get_global_variable m s.sections)
  state ← map_error in_stats (create_state_type stats s.stack_size)
  codes ← generate_clones s translated
  functions ← finish_functions s translated translated codes
  ok (record {
    stats = stats;
    state = state;
    globals = globals;
    lookup = create_addr_lookup_func table (length s.sections);
    functions = functions;
  })

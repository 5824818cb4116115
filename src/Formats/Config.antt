-- ===== src/Formats/Config.antt =====
-- The descriptions of instructions: lib/lifter/instr-impl.cpp and include/bleach/lifter/instr-impl.hpp.
-- `IrModule` stands for an LLVM module, `print` for its printer, and `parse_ir` for LLVM's parser.
pub mod File
pub mod Laws
use text.Mathlib.Text.{◌==◌ as str_eq}
use llvm_bleach.Base.{
  map_error, ℕ, ◌==◌, Bool, true, false, String, List, [], ◌∷◌, Option, none, some, Result, ok, err,
  ◌>>=◌, find_if, if◌then◌else◌,
}
use llvm_bleach.Lifter.Control.{Instruction}
use llvm_bleach.Formats.Yaml.{Yaml, YamlError}

-- `instruction`, with its three flags.
pub record NamedInstruction (IrModule : Type 0) : Type 0 where
  pub name : String
  pub ir_module : Option IrModule
  pub flags : Instruction

pub record NormalizedInstruction : Type 0 where
  pub name : String
  pub function_str : String
  pub flags : Instruction

pub record InstrImpl (IrModule : Type 0) : Type 0 where
  pub stack_pointer : String
  pub const_regs : List (String × ℕ)
  pub regclasses : List (String × String)
  pub subregisters : List (String × String)
  pub instrs : List (NamedInstruction IrModule)

pub data ConfigError : Type 0 where
  yaml_error : YamlError → ConfigError
  -- `Attempt to serialize instr with no impl`
  no_impl : ConfigError
  -- `Instruction entry must have only 1 key`
  not_one_key : ConfigError
  -- `is_return should be a sequence`
  not_a_sequence : ConfigError
  -- `Failed to parse LLVM IR`
  bad_ir : ConfigError
  -- `duplicated subregister class encountered`
  duplicate : ConfigError

abbrev pub of_yaml : {A : Type 0} → Result YamlError A → Result ConfigError A
of_yaml r = map_error ConfigError.yaml_error r

abbrev pub no_flags : Instruction
no_flags = record { retinfo = none; is_pc_relative = false; is_indirect_branch = false }

-- The constructor of `normalized_instruction` leaves `is_pc_relative` at its default.
unfoldable pub normalize :
    {IrModule : Type 0}
    → (IrModule → String)
    → NamedInstruction IrModule
    → Result ConfigError NormalizedInstruction
normalize print instr = elim instr.ir_module [
  | none ↦ err ConfigError.no_impl
  | some m ↦ ok (record {
    name = instr.name;
    function_str = print m;
    flags = record {
      retinfo = instr.flags.retinfo;
      is_pc_relative = false;
      is_indirect_branch = instr.flags.is_indirect_branch;
    };
  })
]

unfoldable pub denormalize_instruction :
    {IrModule : Type 0}
    → (String → Option IrModule)
    → NormalizedInstruction
    → Result ConfigError (NamedInstruction IrModule)
denormalize_instruction parse_ir norm =
    if str_eq norm.function_str ""
    then ok (record { name = norm.name; ir_module = none; flags = norm.flags })
    else elim (parse_ir norm.function_str) [
      | none ↦ err ConfigError.bad_ir
      | some m ↦ ok (record { name = norm.name; ir_module = some m; flags = norm.flags })
    ]

-- `instr_impl::find`
unfoldable pub find_instr :
    {IrModule : Type 0} → String → InstrImpl IrModule → Option (NamedInstruction IrModule)
find_instr name impl = find_if (λ i. str_eq i.name name) impl.instrs

module _ {Node Text : Type 0} (y : Yaml Node Text) where
  -- Only the function is written.
  unfoldable pub encode_instr : NormalizedInstruction → Node
  encode_instr instr =
      y.mapping ((instr.name, y.mapping (("func", y.scalar instr.function_str) ∷ [])) ∷ [])

  unfoldable pub decode_strings : List Node → Result ConfigError (List String)
  decode_strings [] = ok []
  decode_strings (rx ∷ rest) = do
    s ← of_yaml (y.as_string rx)
    more ← decode_strings rest
    ok (s ∷ more)

  -- The node of a key if it is defined, which the code tests first.
  abbrev pub defined : Node → String → Option Node
  defined n key = let v = y.get n key in if y.is_defined v then some v else none

  unfoldable pub decode_func : Node → String → Result ConfigError String
  decode_func body default = elim (defined body "func") [
    | none ↦ ok default
    | some func ↦ if y.is_null func then ok default else of_yaml (y.as_string func)
  ]

  unfoldable pub decode_flag : Node → String → Bool → Result ConfigError Bool
  decode_flag body key default = elim (defined body key) [
    | none ↦ ok default
    | some flag ↦ of_yaml (y.as_bool flag)
  ]

  unfoldable pub decode_retinfo :
      Node → Option (List String) → Result ConfigError (Option (List String))
  decode_retinfo body default = elim (defined body "is_return") [
    | none ↦ ok default
    | some retinfo ↦
        if y.is_sequence retinfo
        then (do regexes ← decode_strings (y.elements retinfo); ok (some regexes))
        else err ConfigError.not_a_sequence
  ]

  unfoldable pub decode_entries :
      List (Node × Node) → NormalizedInstruction → Result ConfigError NormalizedInstruction
  decode_entries [] instr = ok instr
  decode_entries ((key, body) ∷ rest) instr = do
    name ← of_yaml (y.as_string key)
    function_str ← decode_func body instr.function_str
    is_indirect_branch ← decode_flag body "is_indirect_branch" instr.flags.is_indirect_branch
    is_pc_relative ← decode_flag body "pcrelative" instr.flags.is_pc_relative
    retinfo ← decode_retinfo body instr.flags.retinfo
    decode_entries rest (record {
      name = name;
      function_str = function_str;
      flags = record {
        retinfo = retinfo;
        is_pc_relative = is_pc_relative;
        is_indirect_branch = is_indirect_branch;
      };
    })

  -- `as<normalized_instruction>` decodes into a fresh one.
  unfoldable pub decode_instr : Node → Result ConfigError NormalizedInstruction
  decode_instr node =
      if y.size node == 1
      then decode_entries (y.pairs node) (record { name = ""; function_str = ""; flags = no_flags })
      else err ConfigError.not_one_key

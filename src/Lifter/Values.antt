-- ===== src/Lifter/Values.antt =====
-- The values of lifted instructions: `operand_to_value`, `cast_value_to`, `write_value_to_register` and
-- the code that `generate_instruction` and `generate_branch` emit for the function of an instruction
-- (lib/lifter/lifter.cpp), and `constant_reg` (include/bleach/lifter/instr-impl.hpp). An operation
-- of the emitted code names the temporary that it defines.
pub mod Instructions
pub mod Machine
pub mod Exec
pub mod Run
pub mod Reads
pub mod Operands
pub mod Casts
pub mod Writes
pub mod Agree
pub mod Slots
pub mod Access
pub mod Refines
pub mod Typed
use text.Mathlib.Text.{◌==◌ as str_eq}
use llvm_bleach.Base.{
  ℕ, suc, ◌-◌, ◌%◌, ◌^◌, ◌==◌, String, List, [], ◌∷◌, ◌++◌, Bool, true, false, not, Option, none,
  some, Result, ok, err, ◌>>=◌, or_error, find_if, filter_if, if◌then◌else◌,
}
use llvm_bleach.Base.Int.{ℤ, pos, negsuc}
use llvm_bleach.Mctomir.Machine.{MachineOperand, MachineInstr, RegState, find_address}
use llvm_bleach.Lifter.Stats.{RegisterClass, has_register}
use llvm_bleach.Lifter.Registers.{RegisterMap}
use llvm_bleach.Lifter.Control.{Queries, is_mbb, is_pc_relative}
use llvm_bleach.Lifter.Generate.{is_explicit_use, untrack}
use llvm_bleach.Lifter.Function.{find_register_by_name}

-- `ConstantInt`s and the arguments of `cast_value_to` are integers of some width.
pub data IrType : Type 0 where
  int : ℕ → IrType
  other_type : IrType

pub data Value : Type 0 where
  const : ℕ → ℕ → Value
  temp : ℕ → IrType → Value

abbrev pub type_of : Value → IrType
type_of (Value.const bits x) = IrType.int bits
type_of (Value.temp t ty) = ty

-- A load has its temporary, its width and its variable; a cast the width that it gives; a call the
-- opcode of its function, the arguments and the type that is returned. The address of a slot of the
-- stack is its index: the two `CreateGEP`s in front of a load or a store are part of it.
pub data Op : Type 0 where
  load : ℕ → ℕ → ℕ → Op
  cast : ℕ → Value → ℕ → Op
  call : ℕ → ℕ → List Value → IrType → Op
  store : Value → ℕ → Op
  add : ℕ → Value → Value → Op
  stack_load : ℕ → IrType → Value → Op
  stack_store : Value → Value → Op

-- `IRBuilder`: what it has emitted, the next temporary, and the registers that
-- `stack_pointer_tracker` holds.
pub record Builder : Type 0 where
  pub ops : List Op
  pub next : ℕ
  pub tracker : List ℕ

abbrev pub insert : Op → Builder → Builder
insert op b = record b { ops = b.ops ++ op ∷ [] }

-- An operation that defines a temporary.
abbrev pub define_with : (ℕ → Op) → Builder → Builder
define_with op b = record b { ops = b.ops ++ op b.next ∷ []; next = suc b.next }

pub record FunctionType : Type 0 where
  pub params : List IrType
  pub ret : IrType

pub record ConstantReg : Type 0 where
  pub name : String
  pub value : ℕ

-- What an operand is read with; `functions` gives the type of the function of an opcode.
pub record RegisterFile : Type 0 where
  pub get_name : ℕ → String
  pub llvm_classes : List (List ℕ)
  pub const_regs : List ConstantReg
  pub reg_stats : List RegisterClass
  pub rmap : RegisterMap
  pub functions : ℕ → Option FunctionType
  pub stack_pointer : String

-- `no_variable` is the exception of `rmap.at`, and the null address that `rmap[…]` gives; a null value
-- is the result for an implicit definition.
pub data ValueError : Type 0 where
  no_class no_variable no_constant_register unsupported_operand not_integral : ValueError
  no_function no_address not_a_register no_immediate null_value assertion : ValueError
  no_stack_pointer load_and_store : ValueError

-- `APInt(64, val)` of a signed value.
abbrev pub word : ℤ → ℕ
word (pos n) = n % 2 ^ 64
word (negsuc n) = 2 ^ 64 - 1 - n % 2 ^ 64

module _ (regs : RegisterFile) where
  abbrev pub const_reg_of : ℕ → Option ConstantReg
  const_reg_of r = find_if (λ c. str_eq c.name (regs.get_name r)) regs.const_regs

  abbrev pub class_for : ℕ → Result ValueError RegisterClass
  class_for r = or_error (find_if (has_register r) regs.reg_stats) no_class

  abbrev pub variable_of : ℕ → Result ValueError ℕ
  variable_of r = or_error (find_address r regs.rmap) no_variable

  abbrev pub load_register : ℕ → Builder → Result ValueError (Value × Builder)
  load_register r b = do
    rclass ← class_for r
    v ← variable_of r
    ok (Value.temp b.next (IrType.int rclass.bits), define_with (λ t. Op.load t rclass.bits v) b)

  abbrev pub present : Value × Builder → Result ValueError (Option Value × Builder)
  present r = ok (some r.0, r.1)

module _ (q : Queries) (regs : RegisterFile) where
  -- A constant register has its constant, whatever its flags are.
  unfoldable pub operand_to_value :
      MachineOperand → Builder → Result ValueError (Option Value × Builder)
  operand_to_value (MachineOperand.reg r RegState.define) b = elim (const_reg_of regs r) [
    | some c ↦ ok (some (Value.const 64 (c.value % 2 ^ 64)), b)
    | none ↦
        if q.is_implicit (MachineOperand.reg r RegState.define) then ok (none, b) else err assertion
  ]
  operand_to_value (MachineOperand.reg r f) b = elim (const_reg_of regs r) [
    | some c ↦ ok (some (Value.const 64 (c.value % 2 ^ 64)), b)
    | none ↦ load_register regs r b >>= present regs
  ]
  operand_to_value (MachineOperand.imm v) b = ok (some (Value.const 64 (word v)), b)
  operand_to_value (MachineOperand.global f) b = err unsupported_operand
  operand_to_value (MachineOperand.block m) b = err unsupported_operand

  unfoldable pub operands_to_values :
      List MachineOperand → Builder → Result ValueError (List (Option Value) × Builder)
  operands_to_values [] b = ok ([], b)
  operands_to_values (op ∷ ops) b = do
    v ← operand_to_value op b
    vs ← operands_to_values ops v.1
    ok (v.0 ∷ vs.0, vs.1)

-- A value that is not null.
abbrev pub non_null : Option Value → Result ValueError Value
non_null v = or_error v null_value

abbrev pub all_non_null : List (Option Value) → Result ValueError (List Value)
all_non_null [] = ok []
all_non_null (v ∷ vs) = do x ← non_null v; xs ← all_non_null vs; ok (x ∷ xs)

unfoldable pub cast_value_to : Value → IrType → Builder → Result ValueError (Value × Builder)
cast_value_to v ty b = elim (type_of v) [
  | other_type ↦ err not_integral
  | int from ↦ elim ty [
    | other_type ↦ err not_integral
    | int to ↦
        if from == to
        then ok (v, b)
        else ok (Value.temp b.next (IrType.int to), define_with (λ t. Op.cast t v to) b)
  ]
]

-- `views::zip` of the arguments and the types of the parameters.
unfoldable pub cast_args :
    List (Option Value) → List IrType → Builder → Result ValueError (List Value × Builder)
cast_args [] tys b = ok ([], b)
cast_args (v ∷ vs) [] b = ok ([], b)
cast_args (v ∷ vs) (ty ∷ tys) b = do
  x ← non_null v
  r ← cast_value_to x ty b
  rs ← cast_args vs tys r.1
  ok (r.0 ∷ rs.0, rs.1)

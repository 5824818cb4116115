-- ===== src/Lifter/Values/Machine.antt =====
-- What machine instructions mean, told without the code that is emitted for them: the operands are
-- read from the variables of the registers, the function of the instruction is applied, and its
-- result is written to the definitions. The functions come with the configuration, so what they
-- compute, and the memory that they work on, are parameters.
use llvm_bleach.Base.{
  ℕ, ◌+◌, ◌-◌, ◌*◌, ◌/◌, ◌%◌, ◌^◌, leb, List, [], ◌∷◌, ◌++◌, Bool, true, Option, none, some, Result,
  ok, err, ◌>>=◌, or_error, if◌then◌else◌,
}
use llvm_bleach.Mctomir.Machine.{MachineOperand, RegState, find_address}
use llvm_bleach.Lifter.Registers.Effects.{Vars, set_var}
use llvm_bleach.Lifter.Control.{Queries}
use llvm_bleach.Lifter.Generate.{untrack}
use llvm_bleach.Lifter.Values.{
  IrType, RegisterFile, ValueError, word, const_reg_of, class_for, variable_of,
}
use llvm_bleach.Lifter.Values.Instructions.{constant_registers}

-- The variables of the registers, the slots of the stack, and all other memory.
pub record Cpu (M : Type 0) : Type 0 where
  pub vars : Vars
  pub stack : Vars
  pub memory : M

-- A number of some width.
pub record Word : Type 0 where
  pub bits : ℕ
  pub value : ℕ

-- The low bits, or as many copies of the sign as are needed.
abbrev pub sext_or_trunc : ℕ → ℕ → ℕ → ℕ
sext_or_trunc from to x =
    if leb to from
    then x % 2 ^ to
    else if leb (2 ^ (from - 1)) x
    then x + (2 ^ to - 2 ^ from)
    else x

-- A store of fewer bits than the variable has leaves the others.
abbrev pub overwrite : IrType → ℕ → ℕ → ℕ
overwrite (IrType.int bits) x before = before / 2 ^ bits * 2 ^ bits + x % 2 ^ bits
overwrite IrType.other_type x before = x

-- What a load of a type gives.
abbrev pub truncate : IrType → ℕ → ℕ
truncate (IrType.int bits) x = x % 2 ^ bits
truncate IrType.other_type x = x

abbrev pub constant : ℕ → Word
constant x = record { bits = 64; value = x }

module _ (regs : RegisterFile) where
  abbrev pub read_register : ℕ → Vars → Result ValueError Word
  read_register r vars = do
    rclass ← class_for regs r
    v ← variable_of regs r
    ok (record { bits = rclass.bits; value = vars v % 2 ^ rclass.bits })

  -- A constant register is not written, and keeps its constant.
  abbrev pub new_value : IrType → ℕ → ℕ → ℕ → List (ℕ × ℕ) → Vars → ℕ → Result ValueError ℕ
  new_value ty x r bits consts vars v = elim (const_reg_of regs r) [
    | none ↦ ok (overwrite ty x (vars v))
    | some c ↦ (do
      k ← or_error (find_address r consts) ValueError.no_constant_register
      ok (overwrite (IrType.int bits) (k % 2 ^ bits) (vars v)))
  ]

  abbrev pub write_register : IrType → ℕ → ℕ → Vars → Result ValueError Vars
  write_register ty x r vars = do
    v ← variable_of regs r
    consts ← constant_registers regs regs.const_regs
    rclass ← class_for regs r
    y ← new_value ty x r rclass.bits consts vars v
    ok (set_var vars v y)

  abbrev pub write_registers : IrType → ℕ → List MachineOperand → Vars → Result ValueError Vars
  write_registers ty x [] vars = ok vars
  write_registers ty x (MachineOperand.reg r f ∷ ops) vars =
      write_register ty x r vars >>= write_registers ty x ops
  write_registers ty x (_ ∷ ops) vars = err ValueError.not_a_register

-- The registers that hold no stack pointer any more.
abbrev pub untrack_all : List MachineOperand → List ℕ → List ℕ
untrack_all [] tracker = tracker
untrack_all (MachineOperand.reg r f ∷ ops) tracker = untrack_all ops (untrack r tracker)
untrack_all (_ ∷ ops) tracker = tracker

module _ (q : Queries) (regs : RegisterFile) where
  abbrev pub read_operand : MachineOperand → Vars → Result ValueError (Option Word)
  read_operand (MachineOperand.reg r RegState.define) vars = elim (const_reg_of regs r) [
    | some c ↦ ok (some (constant (c.value % 2 ^ 64)))
    | none ↦
        if q.is_implicit (MachineOperand.reg r RegState.define)
        then ok none
        else err ValueError.assertion
  ]
  read_operand (MachineOperand.reg r f) vars = elim (const_reg_of regs r) [
    | some c ↦ ok (some (constant (c.value % 2 ^ 64)))
    | none ↦ (do x ← read_register regs r vars; ok (some x))
  ]
  read_operand (MachineOperand.imm v) vars = ok (some (constant (word v)))
  read_operand _ vars = err ValueError.unsupported_operand

  abbrev pub read_operands : List MachineOperand → Vars → Result ValueError (List (Option Word))
  read_operands [] vars = ok []
  read_operands (op ∷ ops) vars = do
    x ← read_operand op vars
    xs ← read_operands ops vars
    ok (x ∷ xs)

-- The numbers as the parameters of a function take them.
abbrev pub convert : Word → IrType → Result ValueError ℕ
convert x (IrType.int to) = ok (sext_or_trunc x.bits to x.value)
convert x IrType.other_type = err ValueError.not_integral

abbrev pub convert_all : List (Option Word) → List IrType → Result ValueError (List ℕ)
convert_all [] tys = ok []
convert_all (x ∷ xs) [] = ok []
convert_all (x ∷ xs) (ty ∷ tys) = do
  w ← or_error x ValueError.null_value
  y ← convert w ty
  ys ← convert_all xs tys
  ok (y ∷ ys)

abbrev pub with_pc : Bool → Option ℕ → List (Option Word) → List (Option Word)
with_pc true (some a) args = args ++ some (constant (a % 2 ^ 64)) ∷ []
with_pc _ _ args = args

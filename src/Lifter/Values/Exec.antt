-- ===== src/Lifter/Values/Exec.antt =====
-- What a machine instruction does to the machine, one function for each kind of instruction that
-- `generate_instruction` tells apart (lib/lifter/lifter.cpp). No code is emitted here.
use llvm_bleach.Base.{
  ℕ, ◌+◌, ◌/◌, ◌%◌, ◌^◌, ◌==◌, List, [], ◌∷◌, not, ◌&&◌, Option, none, some, Result, ok, err, ◌>>=◌,
  or_error, filter_if, length, if◌then◌else◌,
}
use llvm_bleach.Base.Int.{ℤ, neg, quot, eqℤ}
use llvm_bleach.Mctomir.Machine.{MachineOperand, MachineInstr}
use llvm_bleach.Lifter.Registers.Effects.{Vars, set_var}
use llvm_bleach.Lifter.Control.{Queries, is_mbb, is_pc_relative}
use llvm_bleach.Lifter.Generate.{
  is_explicit_use, track, first_imm, is_stack_manipulation, stack_def, stack_offset,
}
use llvm_bleach.Lifter.Values.{IrType, RegisterFile, ValueError, word, class_for, variable_of}
use llvm_bleach.Lifter.Values.Instructions.{get_stack_pointer, is_missing}
use llvm_bleach.Lifter.Values.Machine.{
  Cpu, Word, overwrite, truncate, constant, read_operand, read_operands, write_registers,
  untrack_all, convert_all, with_pc,
}

-- The machine, and the registers that are known to hold stack pointers.
pub record Core (M : Type 0) : Type 0 where
  pub tracker : List ℕ
  pub cpu : Cpu M

abbrev pub value_of : Option Word → Result ValueError Word
value_of w = or_error w ValueError.null_value

abbrev pub values_of : List (Option Word) → Result ValueError (List ℕ)
values_of [] = ok []
values_of (w ∷ ws) = do x ← value_of w; xs ← values_of ws; ok (x.value ∷ xs)

module _ (q : Queries) (regs : RegisterFile) where
  -- An immediate that equals the first one is a distance in bytes, and the function wants slots.
  abbrev pub read_stack_operand : ℤ → MachineOperand → Vars → Result ValueError (Option Word)
  read_stack_operand v (MachineOperand.imm w) vars =
      ok (some (constant (word (if eqℤ w v then quot (neg w) 8 else w))))
  read_stack_operand v op vars = read_operand q regs op vars

  abbrev pub read_stack_operands :
      ℤ → List MachineOperand → Vars → Result ValueError (List (Option Word))
  read_stack_operands v [] vars = ok []
  read_stack_operands v (op ∷ ops) vars = do
    x ← read_stack_operand v op vars
    xs ← read_stack_operands v ops vars
    ok (x ∷ xs)

module _ (q : Queries) (regs : RegisterFile) {M : Type 0} (apply : ℕ → List ℕ → M → ℕ × M) where
  -- The function of an instruction runs, and its result goes to the definitions.
  abbrev pub apply_and_write : IrType → MachineInstr → List ℕ → Cpu M → Result ValueError (Cpu M)
  apply_and_write ret i xs cpu = do
    let r = apply i.opcode xs cpu.memory
    vars ← write_registers regs ret r.0 (q.defs i) cpu.vars
    ok (record cpu { vars = vars; memory = r.1 })

  abbrev pub exec_plain : Option ℕ → MachineInstr → Core M → Result ValueError (Core M)
  exec_plain addr i c = do
    ft ← or_error (regs.functions i.opcode) ValueError.no_function
    args ← read_operands q regs (filter_if (is_explicit_use q) (q.uses i)) c.cpu.vars
    xs ← convert_all (with_pc (is_pc_relative q i) addr args) ft.params
    cpu ← apply_and_write ft.ret i xs c.cpu
    ok (record { tracker = untrack_all (q.defs i) c.tracker; cpu = cpu })

  -- The number of the condition, and the machine behind it.
  abbrev pub exec_condition : MachineInstr → Cpu M → Result ValueError (ℕ × Cpu M)
  exec_condition i cpu = do
    ft ← or_error (regs.functions i.opcode) ValueError.no_function
    args ← read_operands q regs (filter_if (λ op. not (is_mbb op)) (q.uses i)) cpu.vars
    xs ← values_of args
    let r = apply i.opcode xs cpu.memory
    ok (r.0, record cpu { memory = r.1 })

  abbrev pub exec_stack_pointer_modification : MachineInstr → Core M → Result ValueError (Core M)
  exec_stack_pointer_modification i c = do
    v ← or_error (first_imm (q.uses i)) ValueError.no_immediate
    args ← read_stack_operands q regs v (q.uses i) c.cpu.vars
    ft ← or_error (regs.functions i.opcode) ValueError.no_function
    xs ← values_of args
    cpu ← apply_and_write ft.ret i xs c.cpu
    ok (record { tracker = c.tracker; cpu = cpu })

  abbrev pub load_to : IrType → ℕ → List MachineOperand → Cpu M → Result ValueError (Cpu M)
  load_to ty x [] cpu = ok cpu
  load_to ty x (MachineOperand.reg r f ∷ ops) cpu = do
    v ← variable_of regs r
    ok (record cpu { vars = set_var cpu.vars v (overwrite ty x (cpu.vars v)) })
  load_to ty x (_ ∷ ops) cpu = err ValueError.not_a_register

  abbrev pub store_from :
      ℕ → List MachineOperand → List MachineOperand → Cpu M → Result ValueError (Cpu M)
  store_from idx [] defs cpu = err ValueError.assertion
  store_from idx (op ∷ ops) [] cpu = do
    x ← read_operand q regs op cpu.vars
    w ← value_of x
    ok (record cpu {
      stack = set_var cpu.stack idx (overwrite (IrType.int w.bits) w.value (cpu.stack idx));
    })
  store_from idx (op ∷ ops) (d ∷ defs) cpu = do
    x ← read_operand q regs op cpu.vars
    w ← value_of x
    err ValueError.assertion

  abbrev pub exec_access : MachineInstr → ℕ → Cpu M → Result ValueError (Cpu M)
  exec_access i idx cpu =
      if q.may_load i.opcode
      then (if q.may_store i.opcode then err ValueError.load_and_store else (do
        ft ← or_error (regs.functions i.opcode) ValueError.no_function
        load_to ft.ret (truncate ft.ret (cpu.stack idx)) (q.defs i) cpu))
      else (if not (length (q.uses i) == 3)
          then err ValueError.assertion
          else store_from idx (q.uses i) (q.defs i) cpu)

  -- A load from a slot of the stack, or a store to one; the stack pointer counts slots, and has the
  -- width of the offset.
  abbrev pub exec_stack : MachineInstr → Core M → Result ValueError (Core M)
  exec_stack i c = do
    sp_reg ← get_stack_pointer regs
    rclass ← class_for regs sp_reg
    v ← variable_of regs sp_reg
    let sp = c.cpu.vars v % 2 ^ rclass.bits
    let offset = word (stack_offset (rclass.bits / 8) (q.uses i))
    if rclass.bits == 64
        then (do
          cpu ← exec_access i ((sp + offset) % 2 ^ 64) c.cpu
          ok (record { tracker = c.tracker; cpu = cpu }))
        else err ValueError.assertion

  unfoldable pub exec_straight : Option ℕ → MachineInstr → Core M → Result ValueError (Core M)
  exec_straight addr i c =
      if is_stack_manipulation q i c.tracker
      then exec_stack i c
      else if is_pc_relative q i && is_missing addr
      then err ValueError.no_address
      else (do
        func ← or_error (regs.functions i.opcode) ValueError.no_function
        elim (stack_def q i c.tracker (q.defs i)) [
          | some dst ↦
              exec_stack_pointer_modification i (record c { tracker = track dst c.tracker })
          | none ↦ exec_plain addr i c
        ])

  unfoldable pub exec_all : List (Option ℕ × MachineInstr) → Core M → Result ValueError (Core M)
  exec_all [] c = ok c
  exec_all ((addr, i) ∷ is) c = exec_straight addr i c >>= exec_all is

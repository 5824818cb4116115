-- ===== src/Lifter/Values/Instructions.antt =====
-- The instructions that do not change the flow of control, as `generate_instruction` emits them
-- (lib/lifter/lifter.cpp): `write_value_to_register`, `read_register_value`, `get_stack_pointer`,
-- `get_stack_pointer_value`, `generate_load_store_from_stack`,
-- `generate_stack_pointer_modification`, the code for all others, and the condition of
-- `generate_branch`.
use llvm_bleach.Base.{
  ℕ, ◌/◌, ◌%◌, ◌^◌, ◌==◌, List, [], ◌∷◌, ◌++◌, Bool, true, false, not, ◌&&◌, Option, none, some,
  Result, ok, err, ◌>>=◌, or_error, filter_if, length, if◌then◌else◌,
}
use llvm_bleach.Base.Int.{ℤ, neg, quot, eqℤ}
use llvm_bleach.Mctomir.Machine.{MachineOperand, MachineInstr, find_address}
use llvm_bleach.Lifter.Control.{Queries, is_mbb, is_pc_relative}
use llvm_bleach.Lifter.Generate.{
  is_explicit_use, untrack, track, first_imm, is_stack_manipulation, stack_def, stack_offset,
}
use llvm_bleach.Lifter.Function.{find_register_by_name}
use llvm_bleach.Lifter.Values.{
  IrType, Value, Op, Builder, insert, define_with, FunctionType, ConstantReg, RegisterFile,
  ValueError, word, const_reg_of, class_for, variable_of, type_of, operand_to_value,
  operands_to_values, non_null, all_non_null, cast_args,
}

module _ (regs : RegisterFile) where
  -- `const_regs_vals`, where the first entry of a register counts.
  abbrev pub constant_registers : List ConstantReg → Result ValueError (List (ℕ × ℕ))
  constant_registers [] = ok []
  constant_registers (c ∷ cs) = do
    special_reg ←
        or_error (find_register_by_name regs.get_name regs.llvm_classes c.name)
          ValueError.no_constant_register
    rest ← constant_registers cs
    ok ((special_reg, c.value) ∷ rest)

  -- What is stored: the constant of a constant register, and the value for any other.
  abbrev pub stored_value : Value → ℕ → ℕ → List (ℕ × ℕ) → Result ValueError Value
  stored_value val reg bits consts = elim (const_reg_of regs reg) [
    | none ↦ ok val
    | some c ↦ (do
      v ← or_error (find_address reg consts) ValueError.no_constant_register
      ok (Value.const bits (v % 2 ^ bits)))
  ]

  unfoldable pub write_value_to_register : Value → ℕ → Builder → Result ValueError Builder
  write_value_to_register val reg b = do
    reg_addr ← variable_of regs reg
    consts ← constant_registers regs.const_regs
    rclass ← class_for regs reg
    x ← stored_value val reg rclass.bits consts
    ok (insert (Op.store x reg_addr) b)

  -- The variable comes first here, as `rmap.at`.
  unfoldable pub read_register_value : ℕ → Builder → Result ValueError (Value × Builder)
  read_register_value reg b = do
    v ← variable_of regs reg
    rclass ← class_for regs reg
    ok (Value.temp b.next (IrType.int rclass.bits), define_with (λ t. Op.load t rclass.bits v) b)

  abbrev pub get_stack_pointer : Result ValueError ℕ
  get_stack_pointer =
      or_error (find_register_by_name regs.get_name regs.llvm_classes regs.stack_pointer)
        ValueError.no_stack_pointer

  unfoldable pub get_stack_pointer_value : Builder → Result ValueError (Value × Builder)
  get_stack_pointer_value b = do sp_reg ← get_stack_pointer; read_register_value sp_reg b

-- The writes of the definitions of a call. `erase` is true where they hold no stack pointer any more.
unfoldable pub write_defs :
    RegisterFile → Bool → Value → List MachineOperand → Builder → Result ValueError Builder
write_defs regs erase val [] b = ok b
write_defs regs erase val (MachineOperand.reg r f ∷ ops) b = do
  b' ←
      write_value_to_register regs val r
        (record b { tracker = if erase then untrack r b.tracker else b.tracker })
  write_defs regs erase val ops b'
write_defs regs erase val (_ ∷ ops) b = err ValueError.not_a_register

abbrev pub create_call : ℕ → FunctionType → List Value → Builder → Value × Builder
create_call opcode ft args b =
    (Value.temp b.next ft.ret, define_with (λ t. Op.call t opcode args ft.ret) b)

abbrev pub with_address : Bool → Option ℕ → List (Option Value) → List (Option Value)
with_address true (some a) args = args ++ some (Value.const 64 (a % 2 ^ 64)) ∷ []
with_address _ _ args = args

abbrev pub same_type : IrType → IrType → Bool
same_type (IrType.int a) (IrType.int b) = a == b
same_type IrType.other_type IrType.other_type = true
same_type _ _ = false

abbrev pub is_missing : Option ℕ → Bool
is_missing none = true
is_missing (some a) = false

module _ (q : Queries) (regs : RegisterFile) where
  unfoldable pub generate_plain : Option ℕ → MachineInstr → Builder → Result ValueError Builder
  generate_plain addr i b = do
    ft ← or_error (regs.functions i.opcode) ValueError.no_function
    args ← operands_to_values q regs (filter_if (is_explicit_use q) (q.uses i)) b
    casted ← cast_args (with_address (is_pc_relative q i) addr args.0) ft.params args.1
    let call = create_call i.opcode ft casted.0 casted.1
    write_defs regs true call.0 (q.defs i) call.1

  -- The condition of the branch; the arguments are not cast.
  unfoldable pub generate_condition : MachineInstr → Builder → Result ValueError (Value × Builder)
  generate_condition i b = do
    ft ← or_error (regs.functions i.opcode) ValueError.no_function
    values ← operands_to_values q regs (filter_if (λ op. not (is_mbb op)) (q.uses i)) b
    args ← all_non_null values.0
    ok (create_call i.opcode ft args values.1)

  -- An immediate that equals the first one becomes a number of slots, of eight bytes each.
  abbrev pub stack_arg : ℤ → MachineOperand → Builder → Result ValueError (Option Value × Builder)
  stack_arg v (MachineOperand.imm w) b =
      ok (some (Value.const 64 (word (if eqℤ w v then quot (neg w) 8 else w))), b)
  stack_arg v op b = operand_to_value q regs op b

  abbrev pub stack_args :
      ℤ → List MachineOperand → Builder → Result ValueError (List (Option Value) × Builder)
  stack_args v [] b = ok ([], b)
  stack_args v (op ∷ ops) b = do
    a ← stack_arg v op b
    more ← stack_args v ops a.1
    ok (a.0 ∷ more.0, more.1)

  unfoldable pub generate_stack_pointer_modification :
      MachineInstr → Builder → Result ValueError Builder
  generate_stack_pointer_modification i b = do
    v ← or_error (first_imm (q.uses i)) ValueError.no_immediate
    values ← stack_args v (q.uses i) b
    ft ← or_error (regs.functions i.opcode) ValueError.no_function
    args ← all_non_null values.0
    let call = create_call i.opcode ft args values.1
    write_defs regs false call.0 (q.defs i) call.1

  -- The result of a load goes to the first definition.
  abbrev pub write_first : Value → List MachineOperand → Builder → Result ValueError Builder
  write_first val [] b = ok b
  write_first val (MachineOperand.reg r f ∷ ops) b = do
    v ← variable_of regs r
    ok (insert (Op.store val v) b)
  write_first val (_ ∷ ops) b = err ValueError.not_a_register

  abbrev pub first_use : List MachineOperand → Builder → Result ValueError (Option Value × Builder)
  first_use [] b = err ValueError.assertion
  first_use (op ∷ ops) b = operand_to_value q regs op b

  -- A store gives no value, so `CreateStore` of it to a definition fails.
  abbrev pub no_definition : List MachineOperand → Builder → Result ValueError Builder
  no_definition [] b = ok b
  no_definition (op ∷ ops) b = err ValueError.assertion

  -- The load or the store of the slot itself.
  unfoldable pub stack_access : MachineInstr → Value → Builder → Result ValueError Builder
  stack_access i idx b =
      if q.may_load i.opcode
      then (if q.may_store i.opcode then err ValueError.load_and_store else (do
        ft ← or_error (regs.functions i.opcode) ValueError.no_function
        write_first (Value.temp b.next ft.ret) (q.defs i)
            (define_with (λ t. Op.stack_load t ft.ret idx) b)))
      else (if not (length (q.uses i) == 3) then err ValueError.assertion else (do
        value ← first_use (q.uses i) b
        stored ← non_null value.0
        no_definition (q.defs i) (insert (Op.stack_store stored idx) value.1)))

  -- `CreateAdd` asserts that its operands have one type.
  unfoldable pub generate_load_store_from_stack : MachineInstr → Builder → Result ValueError Builder
  generate_load_store_from_stack i b = do
    sp_reg ← get_stack_pointer regs
    rclass ← class_for regs sp_reg
    let offset = Value.const 64 (word (stack_offset (rclass.bits / 8) (q.uses i)))
    sp ← get_stack_pointer_value regs b
    if same_type (type_of sp.0) (type_of offset)
        then stack_access i (Value.temp sp.1.next (type_of sp.0))
            (define_with (λ t. Op.add t sp.0 offset) sp.1)
        else err ValueError.assertion

  -- `generate_instruction` for an instruction that neither returns, branches nor calls.
  unfoldable pub generate_straight : Option ℕ → MachineInstr → Builder → Result ValueError Builder
  generate_straight addr i b =
      if is_stack_manipulation q i b.tracker
      then generate_load_store_from_stack i b
      else if is_pc_relative q i && is_missing addr
      then err ValueError.no_address
      else (do
        func ← or_error (regs.functions i.opcode) ValueError.no_function
        elim (stack_def q i b.tracker (q.defs i)) [
          | some dst ↦
              generate_stack_pointer_modification i (record b { tracker = track dst b.tracker })
          | none ↦ generate_plain addr i b
        ])

  -- The instructions of a block in front of the first that changes the flow of control, each with
  -- its address, if known.
  unfoldable pub generate_all : List (Option ℕ × MachineInstr) → Builder → Result ValueError Builder
  generate_all [] b = ok b
  generate_all ((addr, i) ∷ is) b = generate_straight addr i b >>= generate_all is

-- ===== src/Lifter/Generate.antt =====
-- `generate_instruction`, `fill_ir_for_bb`, and what they call for the stack: `is_stack_manipulation`,
-- `generate_load_store_from_stack`, `generate_stack_pointer_modification` (lib/lifter/lifter.cpp),
-- and `stack_pointer_tracker` (include/bleach/lifter/lifter.hpp). Register loads and casts of arguments
-- are in Values, the saves and loads around calls in Calls.
pub mod Laws
pub mod Terminators
pub mod Indirect
pub mod Stack
use llvm_bleach.Base.{
  ℕ, ◌==◌, Bool, true, false, ◌&&◌, ◌||◌, not, List, [], ◌∷◌, ◌++◌, Option, none, some, Result, ok,
  err, ◌>>=◌, or_error, any_of, find_if, filter_if, is_contained, length, take, if◌then◌else◌,
}
use llvm_bleach.Base.Int.{ℤ, pos, neg, quot, eqℤ}
use llvm_bleach.Mctomir.Machine.{MachineOperand, MachineInstr}
use llvm_bleach.Lifter.Control.{
  Queries, Ir, Arg, Emit, Place, LiftError, emit, is_return, is_indirect_branch, is_branch, is_call,
  is_pc_relative, is_global, generate_jump, generate_branch, operand_to_value, operands_to_values,
  IrBlock,
}

abbrev pub reg_of : MachineOperand → Option ℕ
reg_of (MachineOperand.reg r f) = some r
reg_of _ = none

abbrev pub imm_of : MachineOperand → Option ℤ
imm_of (MachineOperand.imm v) = some v
imm_of _ = none

abbrev pub is_tracked : List ℕ → MachineOperand → Bool
is_tracked tracker (MachineOperand.reg r f) = is_contained r tracker
is_tracked tracker _ = false

abbrev pub track : ℕ → List ℕ → List ℕ
track r tracker = if is_contained r tracker then tracker else r ∷ tracker

abbrev pub untrack : ℕ → List ℕ → List ℕ
untrack r tracker = filter_if (λ k. not (k == r)) tracker

unfoldable pub is_stack_manipulation : Queries → MachineInstr → List ℕ → Bool
is_stack_manipulation q i tracker =
    (q.may_load i.opcode || q.may_store i.opcode) && any_of (is_tracked tracker) (q.uses i)

abbrev pub first_imm : List MachineOperand → Option ℤ
first_imm [] = none
first_imm (MachineOperand.imm v ∷ ops) = some v
first_imm (_ ∷ ops) = first_imm ops

-- `-offset / reg_bytesize`, in slots of the stack array.
unfoldable pub stack_offset : ℕ → List MachineOperand → ℤ
stack_offset bytes ops = elim (first_imm ops) [ none ↦ pos 0 | some v ↦ quot (neg v) bytes ]

-- The result is written to the first definition.
abbrev pub write_first : List MachineOperand → Emit → Result LiftError Emit
write_first [] s = ok s
write_first (MachineOperand.reg r f ∷ ops) s = ok (emit (Ir.write r) s)
write_first (_ ∷ ops) s = err LiftError.not_a_register

abbrev pub check : Bool → LiftError → Result LiftError (Unit {0})
check true e = ok tt
check false e = err e

-- The value that is stored is the first use.
abbrev pub first_value : List MachineOperand → Result LiftError Arg
first_value [] = err LiftError.assertion
first_value (op ∷ ops) = operand_to_value op

-- The load or the store itself. A load takes its type from the function of the instruction.
unfoldable pub stack_access : Queries → MachineInstr → ℤ → Emit → Result LiftError Emit
stack_access q i offset s =
    if q.may_load i.opcode
    then (do
      one ← check (not (q.may_store i.opcode)) LiftError.load_and_store
      params ← or_error (q.num_params i.opcode) LiftError.no_function
      ok (emit (Ir.stack_load i.opcode offset) s))
    else (do
      three ← check (length (q.uses i) == 3) LiftError.assertion
      value ← first_value (q.uses i)
      ok (emit (Ir.stack_store value offset) s))

unfoldable pub generate_load_store_from_stack :
    Queries → MachineInstr → Emit → Result LiftError Emit
generate_load_store_from_stack q i s = do
  bytes ← or_error q.stack_pointer_bytes LiftError.no_stack_pointer
  s' ← stack_access q i (stack_offset bytes (q.uses i)) s
  write_first (q.defs i) s'

-- Every immediate that equals the first one becomes a number of slots, of eight bytes each.
abbrev pub stack_arg : ℤ → MachineOperand → Result LiftError Arg
stack_arg v (MachineOperand.imm w) =
    if eqℤ w v then ok (Arg.slots (quot (neg w) 8)) else ok (Arg.operand (MachineOperand.imm w))
stack_arg v op = operand_to_value op

abbrev pub stack_args : ℤ → List MachineOperand → Result LiftError (List Arg)
stack_args v [] = ok []
stack_args v (op ∷ ops) = do a ← stack_arg v op; more ← stack_args v ops; ok (a ∷ more)

abbrev pub write_all : List MachineOperand → Emit → Result LiftError Emit
write_all [] s = ok s
write_all (MachineOperand.reg r f ∷ ops) s = write_all ops (emit (Ir.write r) s)
write_all (_ ∷ ops) s = err LiftError.not_a_register

unfoldable pub generate_stack_pointer_modification :
    Queries → MachineInstr → Emit → Result LiftError Emit
generate_stack_pointer_modification q i s = do
  v ← or_error (first_imm (q.uses i)) LiftError.no_immediate
  args ← stack_args v (q.uses i)
  write_all (q.defs i) (emit (Ir.instr i.opcode args) s)

-- The definitions of any other instruction hold no stack pointer any more.
abbrev pub write_untracked : List MachineOperand → Emit → Result LiftError Emit
write_untracked [] s = ok s
write_untracked (MachineOperand.reg r f ∷ ops) s =
    write_untracked ops (emit (Ir.write r) (record s { tracker = untrack r s.tracker }))
write_untracked (_ ∷ ops) s = err LiftError.not_a_register

abbrev pub is_explicit_use : Queries → MachineOperand → Bool
is_explicit_use q (MachineOperand.reg r f) = not (q.is_implicit (MachineOperand.reg r f))
is_explicit_use q _ = true

abbrev pub with_address : Bool → Option ℕ → List Arg → List Arg
with_address true (some a) args = args ++ Arg.address a ∷ []
with_address _ _ args = args

-- The arguments are zipped with the parameters of the function.
unfoldable pub generate_plain : Queries → Option ℕ → MachineInstr → Emit → Result LiftError Emit
generate_plain q addr i s = do
  params ← or_error (q.num_params i.opcode) LiftError.no_function
  args ← operands_to_values (filter_if (is_explicit_use q) (q.uses i))
  write_untracked (q.defs i)
      (emit (Ir.instr i.opcode (take params (with_address (is_pc_relative q i) addr args))) s)

-- The first definition, if the instruction defines a register from a stack pointer.
abbrev pub stack_def : Queries → MachineInstr → List ℕ → List MachineOperand → Option ℕ
stack_def q i tracker (MachineOperand.reg r f ∷ ops) =
    if any_of (is_tracked tracker) (q.uses i) then some r else none
stack_def q i tracker _ = none

unfoldable pub generate_other : Queries → Option ℕ → MachineInstr → Emit → Result LiftError Emit
generate_other q addr i s = do
  known ← check (not (is_pc_relative q i) || has_address addr) LiftError.no_address
  params ← or_error (q.num_params i.opcode) LiftError.no_function
  elim (stack_def q i s.tracker (q.defs i)) [
    | some r ↦ generate_stack_pointer_modification q i (record s { tracker = track r s.tracker })
    | none ↦ generate_plain q addr i s
  ]
  where
    has_address : Option ℕ → Bool
    has_address none = false
    has_address (some a) = true

abbrev pub callee_of : Option MachineOperand → Result LiftError ℕ
callee_of (some (MachineOperand.global f)) = ok f
callee_of _ = err LiftError.assertion

-- The second test for a return in the code is never reached by a return.
unfoldable pub generate_instruction :
    Queries → Place → Option ℕ → MachineInstr → Emit → Result LiftError Emit
generate_instruction q p addr i s =
    if is_return q i
    then ok (emit Ir.ret_void s)
    else if is_indirect_branch q i
    then ok (emit Ir.indirect s)
    else if is_branch q i
    then (if not (q.flag_conditional i.opcode)
        then generate_jump q p i s
        else generate_branch q p i s)
    else if is_call q i
    then (do f ← callee_of (find_if is_global i.operands); ok (emit (Ir.lifted_call f) s))
    else if is_stack_manipulation q i s.tracker
    then generate_load_store_from_stack q i s
    else generate_other q addr i s

-- The loop, with the instruction before; `addrs` are the addresses of the instructions, if known.
unfoldable pub fill_insts :
    Queries
    → Option ℕ
    → Option MachineInstr
    → List (Option ℕ × MachineInstr)
    → Emit
    → Result LiftError Emit
fill_insts q next_mbb prev [] s = ok s
fill_insts q next_mbb prev ((addr, i) ∷ []) s =
    generate_instruction q (record { next_mbb = next_mbb; prev = prev; following = none }) addr i s
fill_insts q next_mbb prev ((addr, i) ∷ (addr', i') ∷ is) s = do
  s' ←
      generate_instruction q (record { next_mbb = next_mbb; prev = prev; following = some i' }) addr
        i s
  fill_insts q next_mbb (some i) ((addr', i') ∷ is) s'

abbrev pub last_of : MachineInstr → List (Option ℕ × MachineInstr) → MachineInstr
last_of i [] = i
last_of i ((a, j) ∷ is) = last_of j is

-- A block that does not end in a branch or a return is closed.
unfoldable pub close_block : Queries → Option ℕ → MachineInstr → Emit → Result LiftError Emit
close_block q next_mbb last s =
    if not (is_branch q last) && not (is_return q last)
    then (if is_call q last then ok (emit Ir.ret_void s) else elim next_mbb [
      | some b ↦ ok (emit (Ir.br (IrBlock.of_mbb b)) s)
      | none ↦ err LiftError.assertion
    ])
    else ok s

unfoldable pub fill_ir_for_bb :
    Queries → ℕ → Option ℕ → List (Option ℕ × MachineInstr) → Emit → Result LiftError Emit
fill_ir_for_bb q mbb next_mbb [] s = err LiftError.assertion
fill_ir_for_bb q mbb next_mbb ((a, i) ∷ is) s = do
  s' ← fill_insts q next_mbb none ((a, i) ∷ is) (record s { here = IrBlock.of_mbb mbb })
  close_block q next_mbb (last_of i is) s'

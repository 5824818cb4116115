-- ===== src/Examples/Lifting.antt =====
-- A machine block of an addition (opcode 0) and a conditional branch (opcode 1) to the block 2, with
-- the block 1 behind it.
use llvm_bleach.Base.{ℕ, ◌==◌, ◌≤◌, ◌≡◌, refl, false, List, [], ◌∷◌, none, some, ok, Ensures, arith}
use llvm_bleach.Base.Int.{pos, neg, ◌+ℤ◌}
use llvm_bleach.Mctomir.Machine.{MachineOperand, MachineInstr, RegState}
use llvm_bleach.Lifter.Control.{
  Queries, Ir, IrBlock, Arg, Emit, is_return, is_call, is_branch, is_indirect_branch,
  is_pc_relative, generate_branch, get_if_true_block, get_if_false_block,
}
use llvm_bleach.Lifter.Generate.{
  fill_ir_for_bb, fill_insts, generate_instruction, generate_other, generate_plain,
  is_stack_manipulation, close_block, stack_args, stack_offset,
}
use llvm_bleach.Lifter.Generate.Terminators.{EndsOnce, fill_ir_for_bb-EndsOnce}
use llvm_bleach.Lifter.Generate.Indirect.{GoesOn, IsIndirect, fill_ir_for_bb-GoesOn}
use llvm_bleach.Lifter.Generate.Stack.{reserve, access_at, frame_slots_64, frame_slots_32}
use llvm_bleach.Passes.{redundant_branch_eraser, AllErased, redundant_branch_eraser-AllErased}

abbrev reg : ℕ → MachineOperand
reg r = MachineOperand.reg r RegState.no_flags

abbrev uses_of : MachineInstr → List MachineOperand
uses_of i = i.operands

abbrev no_defs : MachineInstr → List MachineOperand
no_defs i = []

abbrev pub queries : Queries
queries = record {
  flag_return = λ o. o == 2;
  flag_branch = λ o. o == 1;
  flag_conditional = λ o. o == 1;
  flag_unconditional = λ o. false;
  flag_indirect = λ o. o == 3;
  flag_call = λ o. false;
  mia_call = λ o. false;
  may_load = λ o. false;
  may_store = λ o. false;
  uses = uses_of;
  defs = no_defs;
  is_implicit = λ op. false;
  configured = λ o. none;
  matches_operand = λ rx op. false;
  num_params = λ o. some 2;
  stack_pointer_bytes = some 8;
}

abbrev pub addition : MachineInstr
addition = record { opcode = 0; operands = reg 5 ∷ reg 6 ∷ [] }

abbrev branch : MachineInstr
branch = record { opcode = 1; operands = reg 5 ∷ reg 6 ∷ MachineOperand.block 2 ∷ [] }

abbrev pub return_instr : MachineInstr
return_instr = record { opcode = 2; operands = [] }

abbrev computed_branch : MachineInstr
computed_branch = record { opcode = 3; operands = reg 5 ∷ [] }

abbrev start : Emit
start = record { here = IrBlock.of_mbb 9; out = []; made = 0; tracker = 2 ∷ [] }

abbrev added : IrBlock × Ir
added = (IrBlock.of_mbb 0, Ir.instr 0 (Arg.operand (reg 5) ∷ Arg.operand (reg 6) ∷ []))

fill_run :
    fill_ir_for_bb queries 0 (some 1) ((none, addition) ∷ (none, branch) ∷ []) start
    ≡ ok (record {
      here = IrBlock.of_mbb 1;
      out =
          added
          ∷ (IrBlock.of_mbb 0, Ir.instr 1 (Arg.operand (reg 5) ∷ Arg.operand (reg 6) ∷ []))
          ∷ (IrBlock.of_mbb 0, Ir.cond_br (IrBlock.of_mbb 2) (IrBlock.of_mbb 1))
          ∷ [];
      made = 0;
      tracker = 2 ∷ [];
    })
unfolding fill_ir_for_bb fill_insts generate_instruction generate_other generate_plain
    is_stack_manipulation close_block is_return is_call is_branch is_indirect_branch is_pc_relative
    generate_branch get_if_true_block get_if_false_block
fill_run = refl

-- Behind an indirect branch the block goes on to the next one.
fill_indirect_run :
    fill_ir_for_bb queries 0 (some 1) ((none, computed_branch) ∷ []) start
    ≡ ok (record {
      here = IrBlock.of_mbb 0;
      out = (IrBlock.of_mbb 0, Ir.indirect) ∷ (IrBlock.of_mbb 0, Ir.br (IrBlock.of_mbb 1)) ∷ [];
      made = 0;
      tracker = 2 ∷ [];
    })
unfolding fill_ir_for_bb fill_insts generate_instruction close_block is_return is_call is_branch
    is_indirect_branch
fill_indirect_run = refl

branch_direct : is_indirect_branch queries branch ≡ false
unfolding is_indirect_branch
branch_direct = refl

addition_straight :
    (is_return queries addition ≡ false)
    × (is_indirect_branch queries addition ≡ false)
    × (is_branch queries addition ≡ false)
    × (queries.flag_conditional addition.opcode ≡ false)
unfolding is_indirect_branch is_return is_branch
addition_straight = (refl, refl, refl, refl)

fill_ir_for_bb-EndsOnce_example :
    Ensures
      (EndsOnce (IrBlock.of_mbb 0) start)
      (fill_ir_for_bb queries 0 (some 1) ((none, addition) ∷ (none, branch) ∷ []) start)
fill_ir_for_bb-EndsOnce_example =
    fill_ir_for_bb-EndsOnce queries 0 (some 1) none addition ((none, branch) ∷ []) start
      (addition_straight, tt) branch_direct

computed_branch-IsIndirect : IsIndirect queries computed_branch
unfolding is_return is_indirect_branch is_branch is_call
computed_branch-IsIndirect = (refl, refl, refl, refl)

fill_ir_for_bb-GoesOn_example :
    Ensures
      (GoesOn (IrBlock.of_mbb 0) (IrBlock.of_mbb 1) start)
      (fill_ir_for_bb queries 0 (some 1) ((none, addition) ∷ (none, computed_branch) ∷ []) start)
fill_ir_for_bb-GoesOn_example =
    fill_ir_for_bb-GoesOn queries 0 1 none addition ((none, computed_branch) ∷ []) start
      (addition_straight, tt) computed_branch-IsIndirect

frame_slots_64_example :
    (stack_args (neg (pos 32)) (reserve 32) ≡ ok (Arg.operand (reg 2) ∷ Arg.slots (pos 4) ∷ []))
    × ((pos 10 +ℤ pos 4) +ℤ stack_offset 8 (access_at 24) ≡ pos 11)
frame_slots_64_example = frame_slots_64 10 4 3 (omega arith)

frame_slots_32_example :
    (stack_args (neg (pos 32)) (reserve 32) ≡ ok (Arg.operand (reg 2) ∷ Arg.slots (pos 4) ∷ []))
    × (slot : ℕ) × ((pos 10 +ℤ pos 4) +ℤ stack_offset 4 (access_at 28) ≡ pos slot)
    × (slot ≤ 10)
frame_slots_32_example = frame_slots_32 10 4 (omega arith) (omega arith)

abbrev blocks : List (List Ir)
blocks =
    (Ir.indirect ∷ Ir.cond_br (IrBlock.of_mbb 2) (IrBlock.fresh 0) ∷ Ir.ret_void ∷ [])
    ∷ (Ir.ret_void ∷ [])
    ∷ []

redundant_branch_eraser-AllErased_example : AllErased blocks (redundant_branch_eraser blocks)
redundant_branch_eraser-AllErased_example = redundant_branch_eraser-AllErased blocks

-- ===== src/Examples/Passes.antt =====
-- The passes on a function of four instructions: at 4 a branch (opcode 1) to 12, at 12 a return
-- (opcode 2).
use llvm_bleach.Base.{
  ℕ, ◌+◌, ◌≡◌, refl, inl, false, ◌||◌, ◌==◌, List, [], ◌∷◌, Option, none, some, ok, Ensures,
  if◌then◌else◌,
}
use llvm_bleach.Base.Int.{pos}
use llvm_bleach.Mctomir.Inst.{
  McOperand, McInst, InstrAnalysis, TranslatedInst, TranslatedBlock, TranslatedFunction,
}
use llvm_bleach.Mctomir.Machine.{
  Machine, MachineBlock, MachineInstr, MachineOperand, RegState, find_address, add_block, update_at,
}
use llvm_bleach.Mctomir.Blocks.{find_leaders, split_insts, split_function, identify_function}
use llvm_bleach.Mctomir.Blocks.Partition.{IsPartition, split_function-IsPartition}
use llvm_bleach.Mctomir.Blocks.Flow.{identify_function_inner}
use llvm_bleach.Mctomir.Translate.{
  InstrInfo, create_blocks, create_machine_basic_blocks, fill_operands, add_operand_to_mib,
  build_instr, create_machine_instr, translate_block, translate_blocks, translate_instructions,
  is_call, is_tail_call,
}
use llvm_bleach.Mctomir.Translate.Count.{Counted, blocks_of}
use llvm_bleach.Mctomir.Translate.Create.{instrs_by_block, create-translate-Counted}
use llvm_bleach.Mctomir.Finalize.{finalize}
use llvm_bleach.Mctomir.Finalize.Closed.{AllClosed, finalize-AllClosed}

abbrev inst_at : ℕ → ℕ → List McOperand → TranslatedInst
inst_at address opcode operands = record {
  address = address;
  inst = record { opcode = opcode; operands = operands };
}

abbrev target_of : McInst → ℕ → ℕ → Option ℕ
target_of i addr size = if i.opcode == 1 then some (addr + 8) else none

abbrev mia : InstrAnalysis
mia = record {
  is_branch = λ i. i.opcode == 1;
  is_unconditional_branch = λ i. false;
  is_return = λ i. i.opcode == 2;
  is_call = λ i. false;
  evaluate_branch = target_of;
}

abbrev info : InstrInfo
info = record { num_defs = λ o. if o == 0 then 1 else 0; num_operands = λ o. 2; g_br = 99 }

abbrev first : TranslatedInst
first = inst_at 0 0 (McOperand.reg 5 ∷ McOperand.reg 6 ∷ [])

abbrev second : TranslatedInst
second = inst_at 4 1 (McOperand.reg 5 ∷ McOperand.imm (pos 8) ∷ [])

abbrev third : TranslatedInst
third = inst_at 8 0 (McOperand.reg 6 ∷ McOperand.imm (pos 1) ∷ [])

abbrev fourth : TranslatedInst
fourth = inst_at 12 2 []

abbrev insts : List TranslatedInst
insts = first ∷ second ∷ third ∷ fourth ∷ []

abbrev block_of : ℕ → ℕ → List TranslatedInst → TranslatedBlock
block_of start end is = record { start_address = start; end_address = end; mbb = none; instrs = is }

abbrev blocks : List TranslatedBlock
blocks =
    block_of 0 7 (first ∷ second ∷ [])
    ∷ block_of 8 11 (third ∷ [])
    ∷ block_of 12 12 (fourth ∷ [])
    ∷ []

abbrev function_with : List TranslatedBlock → TranslatedFunction
function_with bs = record { insts = insts; blocks = bs; start = 0; end = 16; name = "f"; mfunc = 0 }

abbrev empty_machine : Machine
empty_machine = record { mbbs = []; address_to_mbb = [] }

leaders_run : find_leaders mia insts ≡ 8 ∷ 12 ∷ 0 ∷ []
unfolding find_leaders
leaders_run = refl

identify_function_run : identify_function mia (function_with []) ≡ ok (function_with blocks)
unfolding identify_function split_function split_insts find_leaders
identify_function_run = refl

split_function-IsPartition_example :
    (bs : List TranslatedBlock) × (split_function mia [] insts ≡ ok bs)
    × IsPartition (find_leaders mia insts) insts bs
split_function-IsPartition_example = split_function-IsPartition mia insts

identify_function_inner_example : (mia.is_branch first.inst || mia.is_return first.inst) ≡ false
identify_function_inner_example =
    identify_function_inner mia (function_with []) (function_with blocks) refl identify_function_run
      (block_of 0 7 (first ∷ second ∷ [])) (inl refl) [] first second [] refl

abbrev mbb_of : List MachineInstr → List ℕ → MachineBlock
mbb_of is succs = record { parent = 0; instrs = is; successors = succs }

abbrev translated : Machine
translated = record {
  mbbs =
      mbb_of
        (record {
          opcode = 0;
          operands = MachineOperand.reg 5 RegState.define ∷ MachineOperand.reg 6 RegState.kill ∷ [];
        }
          ∷ record {
            opcode = 1;
            operands = MachineOperand.reg 5 RegState.no_flags ∷ MachineOperand.block 2 ∷ [];
          }
          ∷ [])
        (2 ∷ [])
      ∷ mbb_of
          (record {
            opcode = 0;
            operands = MachineOperand.reg 6 RegState.define ∷ MachineOperand.imm (pos 1) ∷ [];
          }
            ∷ [])
          []
      ∷ mbb_of (record { opcode = 2; operands = [] } ∷ []) []
      ∷ [];
  address_to_mbb = (12, 2) ∷ (8, 1) ∷ (0, 0) ∷ [];
}

translate_run :
    translate_instructions mia info
      (create_machine_basic_blocks (function_with blocks ∷ []) empty_machine).0
      (create_machine_basic_blocks (function_with blocks ∷ []) empty_machine).1
    ≡ ok translated
unfolding create_machine_basic_blocks create_blocks add_block translate_instructions
    translate_blocks translate_block create_machine_instr build_instr fill_operands
    add_operand_to_mib find_address update_at is_call is_tail_call
translate_run = refl

create-translate-Counted_example :
    Counted translated
      (blocks_of (create_machine_basic_blocks (function_with blocks ∷ []) empty_machine).0)
    × (instrs_by_block
          (blocks_of (create_machine_basic_blocks (function_with blocks ∷ []) empty_machine).0)
        ≡ instrs_by_block (blocks_of (function_with blocks ∷ [])))
create-translate-Counted_example =
    create-translate-Counted mia info (function_with blocks ∷ []) empty_machine translated
      translate_run

finalize-AllClosed_example :
    Ensures (λ r. AllClosed r.1) (finalize mia info (function_with [] ∷ []) empty_machine)
finalize-AllClosed_example = finalize-AllClosed mia info (function_with [] ∷ []) empty_machine tt

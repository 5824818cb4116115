-- ===== src/Lifter/Clone.antt =====
-- `copy_instructions`, `clone_basic_block`, `replace_uses_of_block_with` and
-- `create_basic_blocks_for_mfunc` (lib/lifter/lifter.cpp). A machine block is known by its number, and
-- the IR block that is made for a clone by that of the clone. The dummy block and its branch, which are
-- gone at the end, are left out, as are bundles, and the loop over the calls of IR blocks that are
-- empty here. `is_branch` stands for the flag of an opcode.
pub mod Replace
pub mod Numbers
pub mod Renamed
use llvm_bleach.Base.{
  ℕ, zero, suc, ◌==◌, Bool, List, [], ◌∷◌, ◌++◌, map, Option, none, some, Result, ok, err, ◌>>=◌,
  or_error, length, get_elem?, is_contained, if◌then◌else◌,
}
use llvm_bleach.Mctomir.Machine.{MachineOperand, MachineInstr, MachineBlock, find_address}

pub data CloneError : Type 0 where
  -- `block_map.at` of a block that is not of the function
  unknown_block : CloneError
  -- the loop over the successors goes on behind one that was removed
  dangling_iterator : CloneError

-- `op.isMBB() && op.getMBB() == old`, and `op.setMBB(new)`.
abbrev pub replace_id : ℕ → ℕ → ℕ → ℕ
replace_id old new id = if id == old then new else id

abbrev pub replace_operand : ℕ → ℕ → MachineOperand → MachineOperand
replace_operand old new (MachineOperand.block id) = MachineOperand.block (replace_id old new id)
replace_operand old new op = op

abbrev pub replace_in_instr : ℕ → ℕ → MachineInstr → MachineInstr
replace_in_instr old new i = record i { operands = map (replace_operand old new) i.operands }

-- `duplicate`; a branch to the block itself goes to the copy.
unfoldable pub copy_instructions : (ℕ → Bool) → ℕ → ℕ → List MachineInstr → List MachineInstr
copy_instructions is_branch src dst [] = []
copy_instructions is_branch src dst (i ∷ is) =
    (if is_branch i.opcode then replace_in_instr src dst i else i)
    ∷ copy_instructions is_branch src dst is

unfoldable pub clone_basic_block : (ℕ → Bool) → ℕ → ℕ → ℕ → MachineBlock → MachineBlock
clone_basic_block is_branch dst_func src dst b = record {
  parent = dst_func;
  instrs = copy_instructions is_branch src dst b.instrs;
  successors = b.successors;
}

-- The first loop: each block gets the next number; `block_map` sends a block to its clone.
unfoldable pub clone_blocks :
    (ℕ → Bool) → ℕ → List (ℕ × MachineBlock) → ℕ → List MachineBlock × List (ℕ × ℕ)
clone_blocks is_branch dst_func [] next = ([], [])
clone_blocks is_branch dst_func ((id, b) ∷ blocks) next =
    let (clones, block_map) = clone_blocks is_branch dst_func blocks (suc next) in
    (clone_basic_block is_branch dst_func id next b ∷ clones, (id, next) ∷ block_map)

-- `replace_successor` stands for `MachineBasicBlock::replaceSuccessor` on the list of successors.
unfoldable pub replace_uses_of_block_with :
    (ℕ → ℕ → List ℕ → List ℕ) → ℕ → ℕ → MachineBlock → MachineBlock
replace_uses_of_block_with replace_successor old new b = record b {
  instrs = map (replace_in_instr old new) b.instrs;
  successors = replace_successor old new b.successors;
}

-- The loop over the successors of one block, by position; its end is that of the list at the start.
unfoldable pub replace_successors :
    (ℕ → ℕ → List ℕ → List ℕ) → List (ℕ × ℕ) → ℕ → ℕ → MachineBlock → Result CloneError MachineBlock
replace_successors replace_successor block_map zero i b = ok b
replace_successors replace_successor block_map (suc n) i b = do
  succ ← or_error (get_elem? b.successors i) CloneError.dangling_iterator
  new ← or_error (find_address succ block_map) CloneError.unknown_block
  let b' = replace_uses_of_block_with replace_successor succ new b
  replace_successors replace_successor block_map n (suc i) b'

unfoldable pub replace_all_successors :
    (ℕ → ℕ → List ℕ → List ℕ)
    → List (ℕ × ℕ)
    → List MachineBlock
    → Result CloneError (List MachineBlock)
replace_all_successors replace_successor block_map [] = ok []
replace_all_successors replace_successor block_map (b ∷ bs) = do
  b' ← replace_successors replace_successor block_map (length b.successors) 0 b
  bs' ← replace_all_successors replace_successor block_map bs
  ok (b' ∷ bs')

unfoldable pub create_basic_blocks_for_mfunc :
    (ℕ → Bool)
    → (ℕ → ℕ → List ℕ → List ℕ)
    → ℕ
    → List (ℕ × MachineBlock)
    → ℕ
    → Result CloneError (List MachineBlock)
create_basic_blocks_for_mfunc is_branch replace_successor dst_func src next =
    let made = clone_blocks is_branch dst_func src next in
    replace_all_successors replace_successor made.1 made.0

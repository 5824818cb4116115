-- ===== src/Mctomir/Translate.antt =====
-- `create_machine_basic_blocks`, `translate_instructions`, and what they call
-- (lib/mctomir/mctomir-transform.cpp). `InstrInfo` stands for `llvm::MCInstrDesc` of an opcode, and
-- for the opcode `TargetOpcode::G_BR`. The debug locations and the warning on `cerr` are left out.
pub mod Count
pub mod Create
pub mod Targets
use llvm_bleach.Base.{
  ℕ, suc, ◌+◌, Bool, true, false, ◌&&◌, ◌||◌, not, List, [], ◌∷◌, ◌++◌, Option, none, some, Result,
  ok, err, ◌>>=◌, or_error, length, get_elem?, ltb, ◌==◌, add64, if◌then◌else◌,
}
use llvm_bleach.Base.Int.{ℤ}
use llvm_bleach.Mctomir.Inst.{
  McOperand, McInst, InstrAnalysis, TranslatedInst, TranslatedBlock, TranslatedFunction,
}
use llvm_bleach.Mctomir.Machine.{
  MachineOperand, MachineInstr, MachineBlock, Machine, RegState, find_address, add_block, update_at,
  update_block, block_at, push_instr, push_successor,
}

pub record InstrInfo : Type 0 where
  pub num_defs : ℕ → ℕ
  pub num_operands : ℕ → ℕ
  pub g_br : ℕ

pub data TranslateError : Type 0 where
  unsupported_operand failed_to_convert assertion dangling_block : TranslateError

-- `address_to_mbb[block.start_address] = mbb`, for each block of a function.
unfoldable pub create_blocks : ℕ → List TranslatedBlock → Machine → List TranslatedBlock × Machine
create_blocks mfunc [] m = ([], m)
create_blocks mfunc (b ∷ bs) m =
    let (bs', m') = create_blocks mfunc bs (add_block m mfunc b.start_address) in
    (record b { mbb = some (length m.mbbs) } ∷ bs', m')

unfoldable pub create_machine_basic_blocks :
    List TranslatedFunction → Machine → List TranslatedFunction × Machine
create_machine_basic_blocks [] m = ([], m)
create_machine_basic_blocks (f ∷ fs) m =
    let (bs, m') = create_blocks f.mfunc f.blocks m in
    let (fs', m'') = create_machine_basic_blocks fs m' in (record f { blocks = bs } ∷ fs', m'')

-- The parents are those of the target and of the current block.
unfoldable pub is_tail_call : InstrAnalysis → McInst → ℕ → ℕ → Bool
is_tail_call mia inst current target = mia.is_unconditional_branch inst && not (target == current)

unfoldable pub is_call : InstrAnalysis → McInst → ℕ → ℕ → Bool
unfolding is_tail_call
is_call mia inst current target = mia.is_call inst || is_tail_call mia inst current target

add_reg : InstrInfo → ℕ → ℕ → ℕ → MachineOperand
add_reg info r op_idx opcode =
    if ltb op_idx (info.num_defs opcode)
    then MachineOperand.reg r RegState.define
    else if suc op_idx == info.num_operands opcode
    then MachineOperand.reg r RegState.kill
    else MachineOperand.reg r RegState.no_flags

unfoldable pub add_operand_to_mib :
    InstrInfo → McOperand → ℕ → ℕ → Result TranslateError MachineOperand
unfolding add_reg
add_operand_to_mib info (McOperand.reg r) op_idx opcode = ok (add_reg info r op_idx opcode)
add_operand_to_mib info (McOperand.imm v) op_idx opcode = ok (MachineOperand.imm v)
add_operand_to_mib info McOperand.other op_idx opcode = err TranslateError.unsupported_operand

abbrev pub is_imm : McOperand → Bool
is_imm (McOperand.imm v) = true
is_imm _ = false

-- The loop from operand `i` of `n`: the last immediate of a branch is left to the caller.
unfoldable pub fill_operands :
    InstrInfo → Bool → ℕ → ℕ → ℕ → List McOperand → Result TranslateError (List MachineOperand)
fill_operands info is_branch opcode n i [] = ok []
fill_operands info is_branch opcode n i (op ∷ ops) =
    let rest = (do
      o ← add_operand_to_mib info op i opcode
      os ← fill_operands info is_branch opcode n (suc i) ops
      ok (o ∷ os)) in
    if is_branch && (suc i == n) && is_imm op then ok [] else rest

abbrev pub operands_of : InstrInfo → Bool → McInst → Result TranslateError (List MachineOperand)
operands_of info is_branch inst =
    fill_operands info is_branch inst.opcode (length inst.operands) 0 inst.operands

-- An instruction, with the successor that it adds to its block.
abbrev pub Built : Type 0
Built = MachineInstr × Option ℕ

abbrev pub plain_instr : InstrInfo → Bool → McInst → Result TranslateError Built
plain_instr info is_branch inst = do
  ops ← operands_of info is_branch inst
  ok (record { opcode = inst.opcode; operands = ops }, none)

-- A tail call is a `G_BR` to the function; another call keeps its operands.
abbrev pub call_instr : InstrInfo → McInst → Bool → ℕ → Result TranslateError Built
call_instr info inst true target =
    ok (record { opcode = info.g_br; operands = MachineOperand.global target ∷ [] }, none)
call_instr info inst false target = do
  ops ← operands_of info true inst
  ok (record { opcode = inst.opcode; operands = ops ++ MachineOperand.global target ∷ [] }, none)

abbrev pub branch_instr : InstrInfo → McInst → ℕ → Result TranslateError Built
branch_instr info inst target = do
  ops ← operands_of info true inst
  ok (
    record { opcode = inst.opcode; operands = ops ++ MachineOperand.block target ∷ [] },
    some target,
  )

abbrev pub ends_in_imm : List McOperand → Bool
ends_in_imm [] = false
ends_in_imm (op ∷ []) = is_imm op
ends_in_imm (op ∷ o ∷ ops) = ends_in_imm (o ∷ ops)

-- A branch whose target is a known block: `parent` is the function of the current block.
known_target : InstrAnalysis → InstrInfo → Machine → McInst → ℕ → ℕ → Result TranslateError Built
unfolding is_call is_tail_call
known_target mia info m inst parent target = do
  tb ← or_error (block_at m target) TranslateError.dangling_block
  (if is_call mia inst parent tb.parent
      then call_instr info inst (is_tail_call mia inst parent tb.parent) tb.parent
      else branch_instr info inst target)

-- `create_machine_instr` up to the insertion into the block.
unfoldable pub build_instr :
    InstrAnalysis → InstrInfo → Machine → TranslatedInst → ℕ → Result TranslateError Built
unfolding known_target
build_instr mia info m t parent = elim (mia.evaluate_branch t.inst 0 4) [
  | none ↦ plain_instr info false t.inst
  | some target ↦
      if ends_in_imm t.inst.operands
      then elim (find_address (add64 target t.address) m.address_to_mbb) [
        | some id ↦ known_target mia info m t.inst parent id
        | none ↦ plain_instr info true t.inst
      ]
      else err TranslateError.assertion
]

abbrev pub insert_built : Built → MachineBlock → MachineBlock
insert_built (i, none) b = push_instr i b
insert_built (i, some s) b = push_successor s (push_instr i b)

unfoldable pub create_machine_instr :
    InstrAnalysis → InstrInfo → TranslatedInst → Option ℕ → Machine → Result TranslateError Machine
create_machine_instr mia info t none m = err TranslateError.failed_to_convert
create_machine_instr mia info t (some id) m = do
  b ← or_error (block_at m id) TranslateError.dangling_block
  built ← build_instr mia info m t b.parent
  ok (update_block m id (insert_built built))

unfoldable pub translate_block :
    InstrAnalysis
    → InstrInfo
    → Option ℕ
    → List TranslatedInst
    → Machine
    → Result TranslateError Machine
translate_block mia info mbb [] m = ok m
translate_block mia info mbb (t ∷ ts) m = do
  m' ← create_machine_instr mia info t mbb m
  translate_block mia info mbb ts m'

unfoldable pub translate_blocks :
    InstrAnalysis → InstrInfo → List TranslatedBlock → Machine → Result TranslateError Machine
translate_blocks mia info [] m = ok m
translate_blocks mia info (b ∷ bs) m = do
  m' ← translate_block mia info b.mbb b.instrs m
  translate_blocks mia info bs m'

unfoldable pub translate_instructions :
    InstrAnalysis → InstrInfo → List TranslatedFunction → Machine → Result TranslateError Machine
translate_instructions mia info [] m = ok m
translate_instructions mia info (f ∷ fs) m = do
  m' ← translate_blocks mia info f.blocks m
  translate_instructions mia info fs m'

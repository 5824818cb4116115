-- ===== src/Lifter/Control.antt =====
-- What a machine instruction is to the lifter, and the code of branches: `match_return`, `is_return`,
-- `is_call`, `is_indirect_branch`, `is_branch`, `is_pc_relative`, `generate_jump`, `generate_branch`,
-- `get_if_true_block`, `get_if_false_block` (lib/lifter/lifter.cpp), and the `instruction` of the
-- configuration (include/bleach/lifter/instr-impl.hpp). `Queries` holds what LLVM and the regular
-- expressions say: the flags of an opcode, its uses and definitions, and the functions of the module.
use llvm_bleach.Base.{
  ℕ, suc, Bool, true, false, ◌&&◌, ◌||◌, not, String, List, [], ◌∷◌, ◌++◌, Option, none, some,
  Result, ok, err, ◌>>=◌, or_error, any_of, find_if, filter_if, get_elem?, if◌then◌else◌,
}
use llvm_bleach.Base.Int.{ℤ}
use llvm_bleach.Mctomir.Machine.{MachineOperand, MachineInstr}

pub record Instruction : Type 0 where
  pub retinfo : Option (List String)
  pub is_pc_relative : Bool
  pub is_indirect_branch : Bool

pub record Queries : Type 0 where
  pub flag_return : ℕ → Bool
  pub flag_branch : ℕ → Bool
  pub flag_conditional : ℕ → Bool
  pub flag_unconditional : ℕ → Bool
  pub flag_indirect : ℕ → Bool
  pub flag_call : ℕ → Bool
  pub mia_call : ℕ → Bool
  pub may_load : ℕ → Bool
  pub may_store : ℕ → Bool
  pub uses : MachineInstr → List MachineOperand
  pub defs : MachineInstr → List MachineOperand
  pub is_implicit : MachineOperand → Bool
  pub configured : ℕ → Option Instruction
  pub matches_operand : String → MachineOperand → Bool
  pub num_params : ℕ → Option ℕ
  pub stack_pointer_bytes : Option ℕ

abbrev pub is_mbb : MachineOperand → Bool
is_mbb (MachineOperand.block b) = true
is_mbb _ = false

abbrev pub is_global : MachineOperand → Bool
is_global (MachineOperand.global f) = true
is_global _ = false

-- `views::zip` stops at the shorter of the two.
unfoldable pub zip_match : Queries → List MachineOperand → List String → Bool
zip_match q [] rxs = true
zip_match q (op ∷ ops) [] = true
zip_match q (op ∷ ops) (rx ∷ rxs) = q.matches_operand rx op && zip_match q ops rxs

unfoldable pub match_return : Queries → MachineInstr → Instruction → Bool
match_return q i c = elim c.retinfo [ none ↦ false | some rxs ↦ zip_match q i.operands rxs ]

unfoldable pub is_return : Queries → MachineInstr → Bool
is_return q i =
    q.flag_return i.opcode
    || (elim (q.configured i.opcode) [ none ↦ false | some c ↦ match_return q i c ])

unfoldable pub is_call : Queries → MachineInstr → Bool
is_call q i =
    q.flag_call i.opcode
    || ((q.mia_call i.opcode || q.flag_unconditional i.opcode) && any_of is_global i.operands)

unfoldable pub is_indirect_branch : Queries → MachineInstr → Bool
is_indirect_branch q i =
    q.flag_indirect i.opcode
    || (elim (q.configured i.opcode) [ none ↦ false | some c ↦ c.is_indirect_branch ])

unfoldable pub is_branch : Queries → MachineInstr → Bool
is_branch q i =
    (q.flag_branch i.opcode && any_of is_mbb i.operands)
    || (q.mia_call i.opcode && any_of is_mbb i.operands)

unfoldable pub is_pc_relative : Queries → MachineInstr → Bool
is_pc_relative q i = elim (q.configured i.opcode) [ none ↦ false | some c ↦ c.is_pc_relative ]

-- A block of the lifted function: that of a machine block, or one that was made on the way.
pub data IrBlock : Type 0 where
  of_mbb : ℕ → IrBlock
  fresh : ℕ → IrBlock

-- The argument of an emitted call: an operand, a number of stack slots, or the address.
pub data Arg : Type 0 where
  operand : MachineOperand → Arg
  slots : ℤ → Arg
  address : ℕ → Arg

pub data Ir : Type 0 where
  ret_void : Ir
  br : IrBlock → Ir
  cond_br : IrBlock → IrBlock → Ir
  indirect : Ir
  lifted_call : ℕ → Ir
  stack_load : ℕ → ℤ → Ir
  stack_store : Arg → ℤ → Ir
  instr : ℕ → List Arg → Ir
  write : ℕ → Ir

-- The block at whose end the builder stands, the code in the order in which it is made, the number
-- of blocks made on the way, and the registers that `stack_pointer_tracker` holds.
pub record Emit : Type 0 where
  pub here : IrBlock
  pub out : List (IrBlock × Ir)
  pub made : ℕ
  pub tracker : List ℕ

pub data LiftError : Type 0 where
  no_function no_stack_pointer load_and_store no_address unsupported_operand not_a_register :
      LiftError
  assertion no_immediate : LiftError

abbrev pub emit : Ir → Emit → Emit
emit ir s = record s { out = s.out ++ (s.here, ir) ∷ [] }

-- Where an instruction stands: the machine block behind its own, and its neighbours in the block.
pub record Place : Type 0 where
  pub next_mbb : Option ℕ
  pub prev : Option MachineInstr
  pub following : Option MachineInstr

abbrev pub mbb_operand : Option MachineOperand → Result LiftError IrBlock
mbb_operand (some (MachineOperand.block b)) = ok (IrBlock.of_mbb b)
mbb_operand _ = err LiftError.assertion

abbrev pub behind_conditional : Queries → Option MachineInstr → Bool
behind_conditional q none = false
behind_conditional q (some p) = q.flag_conditional p.opcode

unfoldable pub generate_jump : Queries → Place → MachineInstr → Emit → Result LiftError Emit
generate_jump q p i s =
    if behind_conditional q p.prev
    then ok s
    else (do target ← mbb_operand (find_if is_mbb i.operands); ok (emit (Ir.br target) s))

unfoldable pub get_if_true_block : MachineInstr → Result LiftError IrBlock
get_if_true_block i = mbb_operand (get_elem? i.operands 2)

-- The block, and the state, in which one may have been made.
unfoldable pub get_if_false_block : Queries → Place → Emit → Result LiftError (IrBlock × Emit)
get_if_false_block q p s = elim p.following [
  | some next ↦
      if q.flag_unconditional next.opcode
      then (do target ← mbb_operand (get_elem? next.operands 0); ok (target, s))
      else ok (IrBlock.fresh s.made, record s { made = suc s.made })
  | none ↦ elim p.next_mbb [ some b ↦ ok (IrBlock.of_mbb b, s) | none ↦ err LiftError.assertion ]
]

abbrev pub operand_to_value : MachineOperand → Result LiftError Arg
operand_to_value (MachineOperand.reg r f) = ok (Arg.operand (MachineOperand.reg r f))
operand_to_value (MachineOperand.imm v) = ok (Arg.operand (MachineOperand.imm v))
operand_to_value _ = err LiftError.unsupported_operand

abbrev pub operands_to_values : List MachineOperand → Result LiftError (List Arg)
operands_to_values [] = ok []
operands_to_values (op ∷ ops) = do v ← operand_to_value op; vs ← operands_to_values ops; ok (v ∷ vs)

-- Behind a conditional branch the builder stands in the block of the false case.
unfoldable pub generate_branch : Queries → Place → MachineInstr → Emit → Result LiftError Emit
generate_branch q p i s = do
  params ← or_error (q.num_params i.opcode) LiftError.no_function
  args ← operands_to_values (filter_if (λ op. not (is_mbb op)) (q.uses i))
  if_true ← get_if_true_block i
  r ← get_if_false_block q p (emit (Ir.instr i.opcode args) s)
  ok (record (emit (Ir.cond_br if_true r.0) r.1) { here = r.0 })

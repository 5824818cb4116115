-- ===== src/Mctomir/Inst.antt =====
-- Machine instructions as `llvm::MCInst` shows them, and the structures that
-- include/mctomir/mctomir-transform.h keeps for a translated function.
-- `InstrAnalysis` stands for `llvm::MCInstrAnalysis` of the target.
use llvm_bleach.Base.{ℕ, Bool, String, List, Option}
use llvm_bleach.Base.Int.{ℤ}

pub data McOperand : Type 0 where
  reg : ℕ → McOperand
  imm : ℤ → McOperand
  other : McOperand

pub record McInst : Type 0 where
  pub opcode : ℕ
  pub operands : List McOperand

-- `evaluate_branch inst addr size` is the address that the branch goes to, where it is known.
pub record InstrAnalysis : Type 0 where
  pub is_branch : McInst → Bool
  pub is_unconditional_branch : McInst → Bool
  pub is_return : McInst → Bool
  pub is_call : McInst → Bool
  pub evaluate_branch : McInst → ℕ → ℕ → Option ℕ

-- The field `minst` is set to null and never used again, and is left out.
pub record TranslatedInst : Type 0 where
  pub address : ℕ
  pub inst : McInst

-- `mbb` is the identity of the machine basic block that was made for this block.
pub record TranslatedBlock : Type 0 where
  pub start_address : ℕ
  pub end_address : ℕ
  pub mbb : Option ℕ
  pub instrs : List TranslatedInst

-- `mfunc` is the identity of the machine function, whose IR function has the same name.
pub record TranslatedFunction : Type 0 where
  pub insts : List TranslatedInst
  pub blocks : List TranslatedBlock
  pub start : ℕ
  pub end : ℕ
  pub name : String
  pub mfunc : ℕ

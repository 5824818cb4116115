-- ===== src/Mctomir/Machine.antt =====
-- Machine functions as the lifter builds them: `llvm::MachineBasicBlock`s by identity, in the order
-- in which they are created and appended to their functions, and the map `address_to_mbb`.
-- `MachineInstr` keeps an opcode and operands; `Machine` is the state that the passes share.
pub mod Laws
use llvm_bleach.Base.{
  ℕ, zero, suc, Bool, List, [], ◌∷◌, ◌++◌, Option, none, some, length, get_elem?, ◌==◌,
  if◌then◌else◌,
}
use llvm_bleach.Base.Int.{ℤ}

-- The flags that the lifter sets: a definition, a use that kills, any other use.
pub data RegState : Type 0 where
  define kill no_flags : RegState

pub data MachineOperand : Type 0 where
  reg : ℕ → RegState → MachineOperand
  imm : ℤ → MachineOperand
  global : ℕ → MachineOperand
  block : ℕ → MachineOperand

pub record MachineInstr : Type 0 where
  pub opcode : ℕ
  pub operands : List MachineOperand

pub record MachineBlock : Type 0 where
  pub parent : ℕ
  pub instrs : List MachineInstr
  pub successors : List ℕ

pub record Machine : Type 0 where
  pub mbbs : List MachineBlock
  pub address_to_mbb : List (ℕ × ℕ)

abbrev pub empty_block : ℕ → MachineBlock
empty_block mfunc = record { parent = mfunc; instrs = []; successors = [] }

-- `std::map::find` on a list whose first entry for a key counts.
unfoldable pub find_address : ℕ → List (ℕ × ℕ) → Option ℕ
find_address a [] = none
find_address a ((k, v) ∷ entries) = if k == a then some v else find_address a entries

-- `CreateMachineBasicBlock`, `push_back`, and `address_to_mbb[address] = mbb`.
unfoldable pub add_block : Machine → ℕ → ℕ → Machine
add_block m mfunc address = record {
  mbbs = m.mbbs ++ empty_block mfunc ∷ [];
  address_to_mbb = (address, length m.mbbs) ∷ m.address_to_mbb;
}

-- A change of the block with an identity.
unfoldable pub update_at : (MachineBlock → MachineBlock) → ℕ → List MachineBlock → List MachineBlock
update_at f i [] = []
update_at f zero (b ∷ bs) = f b ∷ bs
update_at f (suc i) (b ∷ bs) = b ∷ update_at f i bs

abbrev pub update_block : Machine → ℕ → (MachineBlock → MachineBlock) → Machine
update_block m id f = record m { mbbs = update_at f id m.mbbs }

abbrev pub block_at : Machine → ℕ → Option MachineBlock
block_at m id = get_elem? m.mbbs id

-- `BuildMI` at the end of a block.
abbrev pub push_instr : MachineInstr → MachineBlock → MachineBlock
push_instr i b = record b { instrs = b.instrs ++ i ∷ [] }

-- `MachineBasicBlock::addSuccessor`.
abbrev pub push_successor : ℕ → MachineBlock → MachineBlock
push_successor s b = record b { successors = b.successors ++ s ∷ [] }

-- ===== src/Lifter/Module.antt =====
-- The first part of `bleach_module` (lib/lifter/lifter.cpp): `clone_machine_function` for each function,
-- and then the calls, which go to the clones. Functions are numbers; those of the clones follow `next`.
-- `is_branch`, `replace_successor` and the queries are those of the lifter's other parts.
pub mod Calls
pub mod Linked
use Prim.Native.String.{◌++◌ as append}
use llvm_bleach.Base.{
  map_error, ℕ, suc, Bool, String, List, [], ◌∷◌, Result, ok, err, ◌>>=◌, or_error, if◌then◌else◌,
}
use llvm_bleach.Mctomir.Machine.{MachineOperand, MachineInstr, MachineBlock, find_address}
use llvm_bleach.Lifter.Control.{Queries, is_call}
use llvm_bleach.Lifter.Clone.{CloneError, create_basic_blocks_for_mfunc}

pub data ModuleError : Type 0 where
  clone_error : CloneError → ModuleError
  -- `funcs.at` of a callee that was not cloned
  unknown_callee : ModuleError

-- A machine function with its IR function; its blocks by number.
pub record SourceFunction : Type 0 where
  pub id : ℕ
  pub name : String
  pub blocks : List (ℕ × MachineBlock)

-- The clone takes the name, and the function that was cloned a new one.
pub record ClonedFunction : Type 0 where
  pub old : ℕ
  pub old_name : String
  pub id : ℕ
  pub name : String
  pub blocks : List MachineBlock

-- The new name of the function that is cloned.
abbrev pub old_name_of : String → String
old_name_of name = append name ".old"

unfoldable pub clone_machine_function :
    (ℕ → Bool)
    → (ℕ → ℕ → List ℕ → List ℕ)
    → ℕ
    → ℕ
    → SourceFunction
    → Result ModuleError ClonedFunction
clone_machine_function is_branch replace_successor next_block next f = do
  blocks ←
      map_error ModuleError.clone_error
        (create_basic_blocks_for_mfunc is_branch replace_successor next f.blocks next_block)
  ok (record {
    old = f.id;
    old_name = old_name_of f.name;
    id = next;
    name = f.name;
    blocks = blocks;
  })

unfoldable pub clone_functions :
    (ℕ → Bool)
    → (ℕ → ℕ → List ℕ → List ℕ)
    → ℕ
    → ℕ
    → List SourceFunction
    → Result ModuleError (List ClonedFunction)
clone_functions is_branch replace_successor next_block next [] = ok []
clone_functions is_branch replace_successor next_block next (f ∷ fs) = do
  c ← clone_machine_function is_branch replace_successor next_block next f
  cs ← clone_functions is_branch replace_successor next_block (suc next) fs
  ok (c ∷ cs)

-- `funcs`: the clone of each function.
unfoldable pub clone_map : List ClonedFunction → List (ℕ × ℕ)
clone_map [] = []
clone_map (c ∷ cs) = (c.old, c.id) ∷ clone_map cs

-- The first operand that is a global is changed.
unfoldable pub change_callee :
    List (ℕ × ℕ) → List MachineOperand → Result ModuleError (List MachineOperand)
change_callee funcs [] = ok []
change_callee funcs (MachineOperand.global f ∷ ops) = do
  new_callee ← or_error (find_address f funcs) unknown_callee
  ok (MachineOperand.global new_callee ∷ ops)
change_callee funcs (op ∷ ops) = do rest ← change_callee funcs ops; ok (op ∷ rest)

unfoldable pub change_call : Queries → List (ℕ × ℕ) → MachineInstr → Result ModuleError MachineInstr
change_call q funcs i =
    if is_call q i
    then (do ops ← change_callee funcs i.operands; ok (record i { operands = ops }))
    else ok i

unfoldable pub change_calls_in :
    Queries → List (ℕ × ℕ) → List MachineInstr → Result ModuleError (List MachineInstr)
change_calls_in q funcs [] = ok []
change_calls_in q funcs (i ∷ is) = do
  i' ← change_call q funcs i
  is' ← change_calls_in q funcs is
  ok (i' ∷ is')

unfoldable pub change_block_calls :
    Queries → List (ℕ × ℕ) → List MachineBlock → Result ModuleError (List MachineBlock)
change_block_calls q funcs [] = ok []
change_block_calls q funcs (b ∷ bs) = do
  instrs ← change_calls_in q funcs b.instrs
  bs' ← change_block_calls q funcs bs
  ok (record b { instrs = instrs } ∷ bs')

unfoldable pub change_function_calls :
    Queries → List (ℕ × ℕ) → List ClonedFunction → Result ModuleError (List ClonedFunction)
change_function_calls q funcs [] = ok []
change_function_calls q funcs (c ∷ cs) = do
  blocks ← change_block_calls q funcs c.blocks
  cs' ← change_function_calls q funcs cs
  ok (record c { blocks = blocks } ∷ cs')

unfoldable pub clone_module :
    Queries
    → (ℕ → Bool)
    → (ℕ → ℕ → List ℕ → List ℕ)
    → ℕ
    → ℕ
    → List SourceFunction
    → Result ModuleError (List ClonedFunction)
clone_module q is_branch replace_successor next_block next fs = do
  cs ← clone_functions is_branch replace_successor next_block next fs
  change_function_calls q (clone_map cs) cs

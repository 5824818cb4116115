-- ===== src/Lifter/Function.antt =====
-- `generate_function`, `find_register_by_name` and `fill_symtab_at` (lib/lifter/lifter.cpp), and the
-- choice of the translated function in `bleach_module`. The registers' loads at the entry and their
-- saves before the returns are in Registers and Calls. An address that is missing is reported before
-- the code of its block is made.
pub mod Blocks
pub mod Symtab
use text.Mathlib.Text.{◌==◌ as str_eq}
use llvm_bleach.Base.{
  map_error, ℕ, zero, suc, Bool, String, List, [], ◌∷◌, ◌++◌, map, Option, none, some, Result, ok,
  err, ◌>>=◌, or_error, find_if, get_elem?, if◌then◌else◌,
}
use llvm_bleach.Mctomir.Inst.{TranslatedInst, TranslatedBlock, TranslatedFunction}
use llvm_bleach.Mctomir.Machine.{MachineInstr}
use llvm_bleach.Lifter.Control.{Queries, Emit, LiftError}
use llvm_bleach.Lifter.Generate.{fill_ir_for_bb}
use llvm_bleach.Formats.Symbols.{FileInfo, SymbolError, get_start_of}

pub data FunctionError : Type 0 where
  lift_error : LiftError → FunctionError
  -- `at` of the translated blocks or of their instructions
  out_of_range : FunctionError
  -- `Could not find stack pointer under the name …`
  no_stack_pointer : String → FunctionError
  -- the function is not among the translated ones; the code goes on with the end of the list
  not_translated : FunctionError

-- A machine block by its number, with its instructions.
pub record MachineCode : Type 0 where
  pub id : ℕ
  pub instrs : List MachineInstr

-- The first register with the name, in the first class that has one.
unfoldable pub find_register_by_name : (ℕ → String) → List (List ℕ) → String → Option ℕ
find_register_by_name get_name [] name = none
find_register_by_name get_name (c ∷ regclasses) name =
    elim (find_if (λ reg. str_eq name (get_name reg)) c) [
      | some reg ↦ some reg
      | none ↦ find_register_by_name get_name regclasses name
    ]

-- `trbinfo->instrs.at(idx)->address`
unfoldable pub known_addresses :
    List TranslatedInst → List MachineInstr → Result FunctionError (List (Option ℕ × MachineInstr))
known_addresses insts [] = ok []
known_addresses [] (i ∷ is) = err out_of_range
known_addresses (t ∷ insts) (i ∷ is) = do
  rest ← known_addresses insts is
  ok ((some t.address, i) ∷ rest)

-- `trfinfo->blocks.at(idx)`, if there is a translated function.
unfoldable pub with_addresses :
    Option (List TranslatedBlock)
    → ℕ
    → List MachineInstr
    → Result FunctionError (List (Option ℕ × MachineInstr))
with_addresses none idx is = ok (map (λ i. (none, i)) is)
with_addresses (some blocks) idx is = do
  block ← or_error (get_elem? blocks idx) out_of_range
  known_addresses block.instrs is

abbrev pub first_id : List MachineCode → Option ℕ
first_id [] = none
first_id (b ∷ bs) = some b.id

-- The loop over the blocks, from the block with this index on.
unfoldable pub fill_blocks :
    Queries
    → Option (List TranslatedBlock)
    → ℕ
    → List MachineCode
    → Emit
    → Result FunctionError Emit
fill_blocks q trblocks idx [] s = ok s
fill_blocks q trblocks idx (b ∷ bs) s = do
  insts ← with_addresses trblocks idx b.instrs
  s' ← map_error FunctionError.lift_error (fill_ir_for_bb q b.id (first_id bs) insts s)
  fill_blocks q trblocks (suc idx) bs s'

unfoldable pub generate_function :
    Queries
    → Option ℕ
    → String
    → Option (List TranslatedBlock)
    → List MachineCode
    → Emit
    → Result FunctionError Emit
generate_function q sp_reg sp_name trblocks blocks s = do
  sp ← or_error sp_reg (no_stack_pointer sp_name)
  fill_blocks q trblocks 0 blocks (record s { tracker = sp ∷ [] })

-- The blocks of the function of that name; without any translated function there are no addresses.
unfoldable pub translated_blocks :
    List TranslatedFunction → String → Result FunctionError (Option (List TranslatedBlock))
translated_blocks [] name = ok none
translated_blocks (f ∷ trfinfo) name = do
  found ← or_error (find_if (λ g. str_eq g.name name) (f ∷ trfinfo)) not_translated
  ok (some found.blocks)

-- An IR function: its name, the address of its code, and whether it has none.
pub record IrFunction : Type 0 where
  pub name : String
  pub address : ℕ
  pub is_empty : Bool

-- Each call of `bleach_symtab_add` is put in front of the code of the first block, `front`.
unfoldable pub fill_symtab_at :
    List IrFunction → FileInfo → List (ℕ × ℕ) → Result SymbolError (List (ℕ × ℕ))
fill_symtab_at [] finfo front = ok front
fill_symtab_at (callee ∷ funcs) finfo front =
    if callee.is_empty then fill_symtab_at funcs finfo front else (do
      addr ← get_start_of callee.name finfo
      fill_symtab_at funcs finfo ((addr, callee.address) ∷ front))

-- ===== src/Mctomir/Blocks.antt =====
-- `translator_t::identify_basic_blocks` (lib/mctomir/mctomir-transform.cpp).
-- The set of leaders is a list of addresses that is only asked for membership.
pub mod Leaders
pub mod Partition
pub mod Flow
use llvm_bleach.Base.{
  ℕ, ◌+◌, Bool, ◌||◌, List, [], ◌∷◌, ◌++◌, Option, none, some, Result, ok, err, ◌>>=◌, is_contained,
  length, sub64, add64, if◌then◌else◌,
}
use llvm_bleach.Mctomir.Inst.{InstrAnalysis, TranslatedInst, TranslatedBlock, TranslatedFunction}

pub data BlockError : Type 0 where
  no_basic_block : BlockError

-- The target of a branch becomes a leader.
abbrev add_target : InstrAnalysis → TranslatedInst → List ℕ → List ℕ
add_target mia t leaders =
    if mia.is_branch t.inst
    then elim (mia.evaluate_branch t.inst t.address 0) [
      | none ↦ leaders
      | some target ↦ target ∷ leaders
    ]
    else leaders

-- So does the instruction behind it, if there is one.
abbrev add_next : List TranslatedInst → List ℕ → List ℕ
add_next [] leaders = leaders
add_next (next ∷ rest) leaders = next.address ∷ leaders

-- The body of the first loop, at an instruction with `rest` behind it.
scan_inst : InstrAnalysis → TranslatedInst → List TranslatedInst → List ℕ → List ℕ
scan_inst mia t rest leaders =
    if mia.is_branch t.inst || mia.is_return t.inst
    then add_next rest (add_target mia t leaders)
    else leaders

scan_insts : InstrAnalysis → List TranslatedInst → List ℕ → List ℕ
scan_insts mia [] leaders = leaders
scan_insts mia (t ∷ rest) leaders = scan_insts mia rest (scan_inst mia t rest leaders)

-- The leaders of one function: its first address, and what the loop finds.
unfoldable pub find_leaders : InstrAnalysis → List TranslatedInst → List ℕ
unfolding scan_insts scan_inst
find_leaders mia insts = scan_insts mia insts (add_next insts [])

-- The blocks that are complete, and the one that `current_block` points to.
pub record Split : Type 0 where
  pub closed : List TranslatedBlock
  pub current : Option TranslatedBlock

abbrev pub new_block : ℕ → TranslatedBlock
new_block start = record { start_address = start; end_address = 0; mbb = none; instrs = [] }

-- `current_block->end_address = current_addr - 1`, if there is a current block.
abbrev close_current : Split → ℕ → List TranslatedBlock
close_current s addr = elim s.current [
  | none ↦ s.closed
  | some b ↦ s.closed ++ (record b { end_address = sub64 addr 1 } ∷ [])
]

open_block : List ℕ → Split → TranslatedInst → Split
open_block leaders s t =
    if is_contained t.address leaders
    then record { closed = close_current s t.address; current = some (new_block t.address) }
    else s

push_inst : Split → TranslatedInst → Result BlockError Split
push_inst s t = elim s.current [
  | none ↦ err no_basic_block
  | some b ↦ ok (record s { current = some (record b { instrs = b.instrs ++ t ∷ [] }) })
]

-- The second loop.
unfoldable pub split_insts : List ℕ → Split → List TranslatedInst → Result BlockError Split
unfolding open_block push_inst
split_insts leaders s [] = ok s
split_insts leaders s (t ∷ rest) =
    push_inst (open_block leaders s t) t >>= λ s'. split_insts leaders s' rest

abbrev last_inst : TranslatedInst → List TranslatedInst → TranslatedInst
last_inst t [] = t
last_inst t (u ∷ rest) = last_inst u rest

-- `last_inst.address + last_inst.inst.size()`: `MCInst::size` is the number of operands.
abbrev pub last_end : TranslatedInst → List TranslatedInst → ℕ
last_end t rest = let last = last_inst t rest in add64 last.address (length last.inst.operands)

-- The vector of blocks after the loop, the last one with its end.
finish_split : ℕ → Split → List TranslatedBlock
finish_split end s = elim s.current [
  | none ↦ s.closed
  | some b ↦ s.closed ++ (record b { end_address = end } ∷ [])
]

-- One round of the outer loop: the new blocks go behind those that the function has.
-- With no instruction and some blocks the code would read the last of no instructions.
unfoldable pub split_function :
    InstrAnalysis
    → List TranslatedBlock
    → List TranslatedInst
    → Result BlockError (List TranslatedBlock)
unfolding finish_split
split_function mia blocks [] = ok blocks
split_function mia blocks (t ∷ rest) = do
  s ←
      split_insts (find_leaders mia (t ∷ rest)) (record { closed = blocks; current = none })
        (t ∷ rest)
  ok (finish_split (last_end t rest) s)

unfoldable pub identify_function :
    InstrAnalysis → TranslatedFunction → Result BlockError TranslatedFunction
identify_function mia f = do
  blocks ← split_function mia f.blocks f.insts
  ok (record f { blocks = blocks })

unfoldable pub identify_basic_blocks :
    InstrAnalysis → List TranslatedFunction → Result BlockError (List TranslatedFunction)
identify_basic_blocks mia [] = ok []
identify_basic_blocks mia (f ∷ fs) = do
  g ← identify_function mia f
  gs ← identify_basic_blocks mia fs
  ok (g ∷ gs)

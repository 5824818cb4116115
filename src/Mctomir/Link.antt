-- ===== src/Mctomir/Link.antt =====
-- `link_machine_basic_blocks` and `get_or_create_mbb_for_address`
-- (lib/mctomir/mctomir-transform.cpp).
use llvm_bleach.Base.{
  ℕ, List, [], ◌∷◌, Option, none, some, Result, ok, ◌>>=◌, or_error, is_contained, if◌then◌else◌,
}
use llvm_bleach.Mctomir.Inst.{InstrAnalysis, TranslatedInst, TranslatedBlock, TranslatedFunction}
use llvm_bleach.Mctomir.Machine.{
  Machine, find_address, add_block, update_block, block_at, push_successor,
}
use llvm_bleach.Mctomir.Translate.{TranslateError}

abbrev pub last? : List TranslatedInst → Option TranslatedInst
last? [] = none
last? (t ∷ []) = some t
last? (t ∷ u ∷ ts) = last? (u ∷ ts)

unfoldable pub get_or_create_mbb_for_address : Machine → ℕ → ℕ → Machine
get_or_create_mbb_for_address m address mfunc = elim (find_address address m.address_to_mbb) [
  | some id ↦ m
  | none ↦ add_block m mfunc address
]

-- A branch to an address with no block makes an empty one there. What the code does with a known
-- block is only to look it up again.
unfoldable pub resolve_target : InstrAnalysis → TranslatedInst → ℕ → Machine → Machine
resolve_target mia t mfunc m = elim (mia.evaluate_branch t.inst t.address 0) [
  | none ↦ m
  | some target ↦ get_or_create_mbb_for_address m target mfunc
]

-- The block behind a conditional branch is a successor, and is added once.
unfoldable pub link_once : ℕ → ℕ → Machine → Result TranslateError Machine
link_once id next m = do
  b ← or_error (block_at m id) TranslateError.dangling_block
  ok (if is_contained next b.successors then m else update_block m id (push_successor next))

abbrev pub next_mbb : List TranslatedBlock → Option ℕ
next_mbb [] = none
next_mbb (b ∷ bs) = b.mbb

-- One block with its last instruction `t`, and the blocks behind it.
unfoldable pub link_last :
    InstrAnalysis → ℕ → ℕ → TranslatedInst → Option ℕ → Machine → Result TranslateError Machine
link_last mia mfunc id t next m =
    if mia.is_branch t.inst
    then (let m' = resolve_target mia t mfunc m in
        if mia.is_unconditional_branch t.inst
        then ok m'
        else elim next [ none ↦ ok m' | some n ↦ link_once id n m' ])
    else if mia.is_return t.inst
    then ok m
    else elim next [ none ↦ ok m | some n ↦ ok (update_block m id (push_successor n)) ]

unfoldable pub link_block :
    InstrAnalysis → ℕ → TranslatedBlock → Option ℕ → Machine → Result TranslateError Machine
link_block mia mfunc b next m = elim (last? b.instrs) [
  | none ↦ ok m
  | some t ↦ do id ← or_error b.mbb TranslateError.dangling_block; link_last mia mfunc id t next m
]

unfoldable pub link_blocks :
    InstrAnalysis → ℕ → List TranslatedBlock → Machine → Result TranslateError Machine
link_blocks mia mfunc [] m = ok m
link_blocks mia mfunc (b ∷ bs) m = do
  m' ← link_block mia mfunc b (next_mbb bs) m
  link_blocks mia mfunc bs m'

unfoldable pub link_machine_basic_blocks :
    InstrAnalysis → List TranslatedFunction → Machine → Result TranslateError Machine
link_machine_basic_blocks mia [] m = ok m
link_machine_basic_blocks mia (f ∷ fs) m = do
  m' ← link_blocks mia f.mfunc f.blocks m
  link_machine_basic_blocks mia fs m'

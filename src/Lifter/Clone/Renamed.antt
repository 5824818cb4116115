-- ===== src/Lifter/Clone/Renamed.antt =====
-- The clones of a function's blocks are its blocks with every block renamed.
use llvm_bleach.Base.{
  All-imp, ℕ, suc, ◌≤◌, ◌<◌, ◌==◌, ◌≡◌, refl, inl, inr, Bool, true, false, List, [], ◌∷◌, map, some,
  ok, arith, is_contained, All, Bool-cases, ==_iff,
}
use llvm_bleach.Mctomir.Machine.{MachineOperand, MachineInstr, MachineBlock, find_address}
use llvm_bleach.Mctomir.Translate.Targets.{OperandIn, InstrIn, IsClosed}
use llvm_bleach.Lifter.Clone.{
  replace_operand, copy_instructions, clone_basic_block, clone_blocks, replace_all_successors,
  create_basic_blocks_for_mfunc,
}
use llvm_bleach.Lifter.Clone.Numbers.{
  renumber, Numbered, Numbered-renumber, renumber_ge, renumber_inj,
}
use llvm_bleach.Lifter.Clone.Replace.{
  rename_operand, rename_instr, Replaces, Distinct, replace_each, IsOld, replace_each-ren,
  replace_each_new, replace_successors_run,
}

abbrev pub rename_block : (ℕ → ℕ) → ℕ → MachineBlock → MachineBlock
rename_block ren dst_func b = record {
  parent = dst_func;
  instrs = map (rename_instr ren) b.instrs;
  successors = map ren b.successors;
}

abbrev pub ids_of : List (ℕ × MachineBlock) → List ℕ
ids_of src = map (λ p. p.0) src

module _ (ren : ℕ → ℕ) (fresh : ℕ) (succs : List ℕ) (old : All (IsOld ren fresh) succs) where
  operands_renamed :
      (ops : List MachineOperand)
      → All (OperandIn succs) ops
      → map (rename_operand (replace_each ren fresh succs)) ops ≡ map (rename_operand ren) ops
  operands_renamed [] h = refl
  operands_renamed (MachineOperand.block y ∷ ops) h =
      rw (replace_each-ren ren fresh succs y old h.0, operands_renamed ops h.1) refl
  operands_renamed (MachineOperand.reg r s ∷ ops) h = rw (operands_renamed ops h.1) refl
  operands_renamed (MachineOperand.imm v ∷ ops) h = rw (operands_renamed ops h.1) refl
  operands_renamed (MachineOperand.global f ∷ ops) h = rw (operands_renamed ops h.1) refl

  branch_operands_renamed :
      (src : ℕ) (ops : List MachineOperand)
      → fresh ≤ ren src
      → All (OperandIn succs) ops
      → map
          (rename_operand (replace_each ren fresh succs))
          (map (replace_operand src (ren src)) ops)
        ≡ map (rename_operand ren) ops
  branch_operands_renamed src [] n h = refl
  branch_operands_renamed src (MachineOperand.block y ∷ ops) n h = elim (Bool-cases (y == src)) [
    | inl e ↦
        let same : y ≡ src = (==_iff y src).0 e in
        rw
          (
            e,
            same,
            replace_each_new ren fresh succs (ren src) old n,
            branch_operands_renamed src ops n h.1,
          )
          refl
    | inr e ↦
        rw (e, replace_each-ren ren fresh succs y old h.0, branch_operands_renamed src ops n h.1)
          refl
  ]
  branch_operands_renamed src (MachineOperand.reg r s ∷ ops) n h =
      rw (branch_operands_renamed src ops n h.1) refl
  branch_operands_renamed src (MachineOperand.imm v ∷ ops) n h =
      rw (branch_operands_renamed src ops n h.1) refl
  branch_operands_renamed src (MachineOperand.global f ∷ ops) n h =
      rw (branch_operands_renamed src ops n h.1) refl

  copy_instructions_renamed :
      (is_branch : ℕ → Bool) (src : ℕ) (is : List MachineInstr)
      → fresh ≤ ren src
      → All (InstrIn succs) is
      → map
          (rename_instr (replace_each ren fresh succs))
          (copy_instructions is_branch src (ren src) is)
        ≡ map (rename_instr ren) is
  unfolding copy_instructions
  copy_instructions_renamed is_branch src [] n h = refl
  copy_instructions_renamed is_branch src (i ∷ is) n h = elim (Bool-cases (is_branch i.opcode)) [
    | inl e ↦
        rw
          (
            e,
            branch_operands_renamed src i.operands n h.0,
            copy_instructions_renamed is_branch src is n h.1,
          )
          refl
    | inr e ↦
        rw (e, operands_renamed i.operands h.0, copy_instructions_renamed is_branch src is n h.1)
          refl
  ]

clone_blocks_map :
    (is_branch : ℕ → Bool) (f next y : ℕ) (src : List (ℕ × MachineBlock))
    → is_contained y (ids_of src) ≡ true
    → find_address y (clone_blocks is_branch f src next).1 ≡ some (renumber (ids_of src) next y)
unfolding clone_blocks find_address
clone_blocks_map is_branch f next y [] c = cc
clone_blocks_map is_branch f next y ((id, b) ∷ src) c = elim (Bool-cases (y == id)) [
  | inl e ↦ let flipped : id == y ≡ true = ground arith in rw (e, flipped) refl
  | inr e ↦
      let flipped : id == y ≡ false = ground arith in
      rw (e, flipped) (clone_blocks_map is_branch f (suc next) y src (ground arith))
]

-- The blocks that a block goes to are blocks of the function, each once, and its branches go to them.
abbrev pub IsSelfContained : List ℕ → MachineBlock → Type 0
IsSelfContained ids b =
    All (λ s. is_contained s ids ≡ true) b.successors × Distinct b.successors × IsClosed b

module _ (ids : List ℕ) (next : ℕ) (below : All (λ s. s < next) ids) where
  contained_below :
      (s : ℕ) (xs : List ℕ) → All (λ x. x < next) xs → is_contained s xs ≡ true → s < next
  contained_below s [] h c = cc
  contained_below s (x ∷ xs) h c = elim (Bool-cases (s == x)) [
    | inl e ↦ let o = h.0 in ground arith
    | inr e ↦ contained_below s xs h.1 (ground arith)
  ]

  successors-IsOld :
      (succs : List ℕ)
      → All (λ s. is_contained s ids ≡ true) succs
      → All (IsOld (renumber ids next) next) succs
  successors-IsOld [] h = tt
  successors-IsOld (s ∷ succs) h =
      ((contained_below s ids below h.0, renumber_ge ids next s h.0), successors-IsOld succs h.1)

  clone_not_in :
      (s : ℕ) (succs : List ℕ)
      → is_contained s ids ≡ true
      → All (λ t. is_contained t ids ≡ true) succs
      → is_contained s succs ≡ false
      → is_contained (renumber ids next s) (map (renumber ids next) succs) ≡ false
  clone_not_in s [] c h n = refl
  clone_not_in s (t ∷ succs) c h n =
      elim (Bool-cases (renumber ids next s == renumber ids next t)) [
        | inl e ↦
            let same : s ≡ t = renumber_inj ids next s t c h.0 ((==_iff _ _).0 e) in ground arith
        | inr e ↦ rw e (clone_not_in s succs c h.1 (ground arith))
      ]

  clones-Distinct :
      (succs : List ℕ)
      → All (λ s. is_contained s ids ≡ true) succs
      → Distinct succs
      → Distinct (map (renumber ids next) succs)
  clones-Distinct [] h d = tt
  clones-Distinct (s ∷ succs) h d =
      (clone_not_in s succs h.0 h.1 d.0, clones-Distinct succs h.1 d.1)

apart_nil : (ren : ℕ → ℕ) (succs : List ℕ) → All (λ s. is_contained (ren s) [] ≡ false) succs
apart_nil ren [] = tt
apart_nil ren (s ∷ succs) = (refl, apart_nil ren succs)

module _ (is_branch : ℕ → Bool) (replace_successor : ℕ → ℕ → List ℕ → List ℕ) (dst_func next : ℕ)
    (law : Replaces replace_successor) (ids : List ℕ) (below : All (λ s. s < next) ids)
    (block_map : List (ℕ × ℕ))
    (found : (y : ℕ)
      → is_contained y ids ≡ true
      → find_address y block_map ≡ some (renumber ids next y)) where
  clones_renamed :
      (src : List (ℕ × MachineBlock)) (n : ℕ)
      → next ≤ n
      → Numbered (renumber ids next) (ids_of src) n
      → All (λ p. IsSelfContained ids p.1) src
      → replace_all_successors replace_successor block_map (clone_blocks is_branch dst_func src n).0
        ≡ ok (map (λ p. rename_block (renumber ids next) dst_func p.1) src)
  unfolding replace_all_successors clone_blocks clone_basic_block
  clones_renamed [] n le m h = refl
  clones_renamed ((id, b) ∷ src) n le m h =
      let ren = renumber ids next in
      let old = successors-IsOld ids next below b.successors h.0.0 in
      let one =
        replace_successors_run ren next replace_successor block_map 0 dst_func
          (copy_instructions is_branch id n b.instrs) [] b.successors law refl tt old
          (All-imp _ _ b.successors found h.0.0)
          (clones-Distinct ids next below b.successors h.0.0 h.0.1) (apart_nil ren b.successors) in
      let copied =
        copy_instructions_renamed ren next b.successors old is_branch id b.instrs
          (omega (arith, m.0)) h.0.2 in
      rw (one, clones_renamed src (suc n) (omega arith) m.1 h.1, ← m.0, copied) refl

-- The clones of blocks with different numbers, whose successors are blocks of the function, each once,
-- and whose branches go to successors: there is no error, and every clone is its block, in the new
-- function, with each block of its operands and successors replaced by the clone of that block.
pub create_basic_blocks_for_mfunc_renamed :
    (is_branch : ℕ → Bool) (replace_successor : ℕ → ℕ → List ℕ → List ℕ) (dst_func : ℕ)
    (src : List (ℕ × MachineBlock)) (next : ℕ)
    → Replaces replace_successor
    → Distinct (ids_of src)
    → All (λ s. s < next) (ids_of src)
    → All (λ p. IsSelfContained (ids_of src) p.1) src
    → create_basic_blocks_for_mfunc is_branch replace_successor dst_func src next
      ≡ ok (map (λ p. rename_block (renumber (ids_of src) next) dst_func p.1) src)
unfolding create_basic_blocks_for_mfunc
create_basic_blocks_for_mfunc_renamed is_branch replace_successor dst_func src next law d below h =
    clones_renamed is_branch replace_successor dst_func next law (ids_of src) below _
      (λ y. clone_blocks_map is_branch dst_func next y src) src next (omega arith)
      (Numbered-renumber (ids_of src) next d) h

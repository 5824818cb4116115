-- ===== src/Passes/Functions.antt =====
-- `redundant_branch_eraser::run` on the functions of a lifted module
-- (lib/passes/redundant-branch-eraser.cpp), whose code is one list with the block of each instruction.
use llvm_bleach.Base.{
  ◌==◌, ==_refl, ==_iff, subst, ◌≡◌, refl, ap, Bool, true, false, ◌&&◌, not, Bool-cases, inl, inr,
  List, [], ◌∷◌, map, any_of, if◌then◌else◌, arith,
}
use llvm_bleach.Lifter.Control.{Ir, IrBlock}
use llvm_bleach.Lifter.Bleach.{BleachedModule, LiftedFunction}
use llvm_bleach.Passes.{is_cond_br, erase_behind_branch}

abbrev pub same_block : IrBlock → IrBlock → Bool
same_block (IrBlock.of_mbb a) (IrBlock.of_mbb b) = a == b
same_block (IrBlock.fresh a) (IrBlock.fresh b) = a == b
same_block _ _ = false

-- `ended` holds the blocks whose first conditional branch has been passed.
unfoldable pub erase_emitted : List IrBlock → List (IrBlock × Ir) → List (IrBlock × Ir)
erase_emitted ended [] = []
erase_emitted ended ((b, i) ∷ out) =
    let erased = any_of (same_block b) ended in
    let rest = erase_emitted (if not erased && is_cond_br i then b ∷ ended else ended) out in
    if erased then rest else (b, i) ∷ rest

abbrev pub erase_function : LiftedFunction → LiftedFunction
erase_function f = record f { code = record f.code { out = erase_emitted [] f.code.out } }

abbrev pub erase_module : BleachedModule → BleachedModule
erase_module m = record m { functions = map erase_function m.functions }

-- The code of one block.
unfoldable pub of_block : IrBlock → List (IrBlock × Ir) → List Ir
of_block b [] = []
of_block b ((c, i) ∷ out) = let rest = of_block b out in if same_block b c then i ∷ rest else rest

same_block_refl : (b : IrBlock) → same_block b b ≡ true
same_block_refl (IrBlock.of_mbb a) = ==_refl a
same_block_refl (IrBlock.fresh a) = ==_refl a

same_block-eq : (b c : IrBlock) → same_block b c ≡ true → b ≡ c
same_block-eq (IrBlock.of_mbb a) (IrBlock.of_mbb b) h = ap IrBlock.of_mbb ((==_iff a b).0 h)
same_block-eq (IrBlock.fresh a) (IrBlock.fresh b) h = ap IrBlock.fresh ((==_iff a b).0 h)
same_block-eq (IrBlock.of_mbb a) (IrBlock.fresh b) h = cc
same_block-eq (IrBlock.fresh a) (IrBlock.of_mbb b) h = cc

-- What is left of a block, when some have ended already.
abbrev left_of : IrBlock → List IrBlock → List (IrBlock × Ir) → List Ir
left_of b ended out =
    if any_of (same_block b) ended then [] else erase_behind_branch (of_block b out)

own_instruction :
    (b : IrBlock) (ended : List IrBlock) (i : Ir) (out : List (IrBlock × Ir))
    → ((e : List IrBlock) → of_block b (erase_emitted e out) ≡ left_of b e out)
    → of_block b (erase_emitted ended ((b, i) ∷ out)) ≡ left_of b ended ((b, i) ∷ out)
unfolding erase_emitted of_block erase_behind_branch
own_instruction b ended i out ih = elim (Bool-cases (any_of (same_block b) ended)) [
  | inl e ↦ rw (e, ih ended, e) refl
  | inr e ↦ elim (Bool-cases (is_cond_br i)) [
    | inl c ↦ rw (e, c, same_block_refl b, ih (b ∷ ended), same_block_refl b, c) refl
    | inr c ↦ rw (e, c, same_block_refl b, ih ended, e, c) refl
  ]
]

other_instruction :
    (b c : IrBlock) (ended : List IrBlock) (i : Ir) (out : List (IrBlock × Ir))
    → same_block b c ≡ false
    → ((e : List IrBlock) → of_block b (erase_emitted e out) ≡ left_of b e out)
    → of_block b (erase_emitted ended ((c, i) ∷ out)) ≡ left_of b ended ((c, i) ∷ out)
unfolding erase_emitted of_block
other_instruction b c ended i out ne ih = elim (Bool-cases (any_of (same_block c) ended)) [
  | inl e ↦ rw (e, ne, ih ended) refl
  | inr e ↦ elim (Bool-cases (is_cond_br i)) [
    | inl d ↦ rw (e, d, ne, ih (c ∷ ended), ne) refl
    | inr d ↦ rw (e, d, ne, ih ended) refl
  ]
]

erase_emitted-left_of :
    (b : IrBlock) (out : List (IrBlock × Ir)) (ended : List IrBlock)
    → of_block b (erase_emitted ended out) ≡ left_of b ended out
unfolding erase_emitted of_block erase_behind_branch
erase_emitted-left_of b [] ended = ground arith
erase_emitted-left_of b ((c, i) ∷ out) ended = elim (Bool-cases (same_block b c)) [
  | inl e ↦
      subst (λ c. of_block b (erase_emitted ended ((c, i) ∷ out)) ≡ left_of b ended ((c, i) ∷ out))
        (same_block-eq b c e) (own_instruction b ended i out (erase_emitted-left_of b out))
  | inr e ↦ other_instruction b c ended i out e (erase_emitted-left_of b out)
]

-- The pass leaves of each block of a function what it leaves of the code of that block alone.
erase_emitted-of_block :
    (b : IrBlock) (out : List (IrBlock × Ir))
    → of_block b (erase_emitted [] out) ≡ erase_behind_branch (of_block b out)
erase_emitted-of_block b out = erase_emitted-left_of b out []

-- ===== src/Passes.antt =====
-- `redundant_branch_eraser::run` on the code of one block (lib/passes/redundant-branch-eraser.cpp).
pub mod Functions
use llvm_bleach.Base.{
  ◌≡◌, ◌⊎◌, refl, ap, inl, inr, Bool, true, false, List, [], ◌∷◌, ◌++◌, All, Bool-cases,
  if◌then◌else◌,
}
use llvm_bleach.Lifter.Control.{Ir}

abbrev pub is_cond_br : Ir → Bool
is_cond_br (Ir.cond_br t f) = true
is_cond_br _ = false

-- All behind the first conditional branch is erased.
unfoldable pub erase_behind_branch : List Ir → List Ir
erase_behind_branch [] = []
erase_behind_branch (i ∷ code) =
    let rest = erase_behind_branch code in if is_cond_br i then i ∷ [] else i ∷ rest

unfoldable pub redundant_branch_eraser : List (List Ir) → List (List Ir)
redundant_branch_eraser [] = []
redundant_branch_eraser (block ∷ blocks) =
    erase_behind_branch block ∷ redundant_branch_eraser blocks

abbrev pub NoCondBr : List Ir → Type 0
NoCondBr code = All (λ i. is_cond_br i ≡ false) code

-- A block with no conditional branch is kept; any other keeps its code up to the first one, and that.
abbrev pub Erased : List Ir → List Ir → Type 0
Erased code code' =
    (NoCondBr code × (code' ≡ code))
    ⊎ ((before : List Ir) × (branch : Ir) × (behind : List Ir) × (code ≡ before ++ branch ∷ behind)
        × NoCondBr before
        × (is_cond_br branch ≡ true)
        × (code' ≡ before ++ branch ∷ []))

abbrev pub AllErased : List (List Ir) → List (List Ir) → Type 0
AllErased [] [] = Unit
AllErased (b ∷ bs) (c ∷ cs) = Erased b c × AllErased bs cs
AllErased _ _ = ⊥

erase-Erased : (code : List Ir) → Erased code (erase_behind_branch code)
unfolding erase_behind_branch
erase-Erased [] = inl (tt, refl)
erase-Erased (i ∷ code) = elim (Bool-cases (is_cond_br i)) [
  | inl e ↦ inr ([], i, code, refl, tt, e, rw e refl)
  | inr e ↦ elim (erase-Erased code) [
    | inl (h, k) ↦ inl ((e, h), rw e (ap (◌∷◌ i) k))
    | inr (before, branch, behind, c, h, b, k) ↦
        inr (i ∷ before, branch, behind, ap (◌∷◌ i) c, (e, h), b, rw e (ap (◌∷◌ i) k))
  ]
]

-- In each block the pass keeps all code if there is no conditional branch, and else the code up to and
-- including the first one, so that nothing stands behind it.
pub redundant_branch_eraser-AllErased :
    (blocks : List (List Ir)) → AllErased blocks (redundant_branch_eraser blocks)
unfolding redundant_branch_eraser
redundant_branch_eraser-AllErased [] = tt
redundant_branch_eraser-AllErased (b ∷ bs) = (erase-Erased b, redundant_branch_eraser-AllErased bs)

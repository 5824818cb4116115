-- ===== src/Lifter/Generate/Indirect.antt =====
-- What a lifted block does behind an indirect branch.
use mathlib.Core.List.{append_assoc}
use llvm_bleach.Base.{
  ℕ, ◌≡◌, refl, ap, ◌∙◌, true, false, List, [], ◌∷◌, ◌++◌, Option, none, some, Result, ok, err,
  ◌>>=◌, Ensures, Ensures-bind,
}
use llvm_bleach.Mctomir.Machine.{MachineInstr}
use llvm_bleach.Lifter.Control.{
  Queries, Ir, IrBlock, Emit, LiftError, emit, is_return, is_indirect_branch, is_branch, is_call,
}
use llvm_bleach.Lifter.Generate.{
  generate_instruction, fill_insts, fill_ir_for_bb, close_block, last_of,
}
use llvm_bleach.Lifter.Generate.Laws.{
  PlainIn, Extends, Extends-same, Extends-trans, straight-Extends,
}
use llvm_bleach.Lifter.Generate.Terminators.{StraightBefore}

-- All code that `s'` has more than `s` is in one block: plain code, an indirect branch, and a branch
-- behind it.
pub record GoesOn (b next : IrBlock) (s s' : Emit) : Type 0 where
  pub body : List (IrBlock × Ir)
  pub out : s'.out ≡ s.out ++ (body ++ ((b, Ir.indirect) ∷ (b, Ir.br next) ∷ []))
  pub plain : PlainIn b body

-- An indirect branch has been added last.
abbrev Jumps : Emit → Emit → Type 0
Jumps s s' = (s1 : Emit) × Extends s s1 × (s' ≡ emit Ir.indirect s1)

module _ (q : Queries) where
  -- An indirect branch that is no return, branch or call to the lifter.
  abbrev pub IsIndirect : MachineInstr → Type 0
  IsIndirect i =
      (is_return q i ≡ false)
      × (is_indirect_branch q i ≡ true)
      × (is_branch q i ≡ false)
      × (is_call q i ≡ false)

  fill_insts-Jumps :
      (next_mbb : Option ℕ) (prev : Option MachineInstr) (a : Option ℕ) (i : MachineInstr)
      (is : List (Option ℕ × MachineInstr)) (s : Emit)
      → StraightBefore q ((a, i) ∷ is)
      → IsIndirect (last_of i is)
      → Ensures (Jumps s) (fill_insts q next_mbb prev ((a, i) ∷ is) s)
  unfolding fill_insts generate_instruction
  fill_insts-Jumps next_mbb prev a i [] s k (r, d, b, c) =
      rw (r, d) (s, Extends-same s s.tracker, refl)
  fill_insts-Jumps next_mbb prev a i ((b, j) ∷ is) s k d =
      Ensures-bind (Extends s) (Jumps s) _ _ (straight-Extends q _ a i s k.0.0 k.0.1 k.0.2) (λ s1 e.
        more s1 e (fill_insts q next_mbb (some i) ((b, j) ∷ is) s1)
          (fill_insts-Jumps next_mbb (some i) b j is s1 k.1 d))
    where
      more :
          (s1 : Emit)
          → Extends s s1
          → (m : Result LiftError Emit) → Ensures (Jumps s1) m
          → Ensures (Jumps s) m
      more s1 e (err x) h = tt
      more s1 e (ok s') (s2, f, o) = (s2, Extends-trans s s1 s2 e f, o)

  close-GoesOn :
      (next : ℕ) (last : MachineInstr) (s s' : Emit)
      → IsIndirect last
      → Jumps s s'
      → Ensures (GoesOn s.here (IrBlock.of_mbb next) s) (close_block q (some next) last s')
  unfolding close_block
  close-GoesOn next last s s' (r, d, b, c) (s1, e, o) =
      rw (r, b, c)
        (record {
          body = e.body;
          out =
              ap (λ k. k.out ++ (k.here, Ir.br (IrBlock.of_mbb next)) ∷ []) o
              ∙ append_assoc s1.out ((s1.here, Ir.indirect) ∷ [])
                  ((s1.here, Ir.br (IrBlock.of_mbb next)) ∷ [])
              ∙ ap (λ h. s1.out ++ ((h, Ir.indirect) ∷ (h, Ir.br (IrBlock.of_mbb next)) ∷ []))
                  e.here
              ∙ ap (λ c. c ++ ((s.here, Ir.indirect) ∷ (s.here, Ir.br (IrBlock.of_mbb next)) ∷ []))
                  e.out
              ∙ append_assoc s.out e.body _;
          plain = e.plain;
        })

  -- A machine block with another one behind it, whose instructions are no branches or returns except
  -- that the last one is an indirect branch, is lifted into code that goes on, behind the indirect
  -- branch, to the block of that next one; or an error is reported.
  pub fill_ir_for_bb-GoesOn :
      (mbb next : ℕ) (a : Option ℕ) (i : MachineInstr) (is : List (Option ℕ × MachineInstr))
      (s : Emit)
      → StraightBefore q ((a, i) ∷ is)
      → IsIndirect (last_of i is)
      → Ensures
          (GoesOn (IrBlock.of_mbb mbb) (IrBlock.of_mbb next) s)
          (fill_ir_for_bb q mbb (some next) ((a, i) ∷ is) s)
  unfolding fill_ir_for_bb
  fill_ir_for_bb-GoesOn mbb next a i is s k d =
      let s0 : Emit = record s { here = IrBlock.of_mbb mbb } in
      same
        (fill_insts q (some next) none ((a, i) ∷ is) s0
          >>= close_block q (some next) (last_of i is))
        (Ensures-bind (Jumps s0) (GoesOn (IrBlock.of_mbb mbb) (IrBlock.of_mbb next) s0) _ _
          (fill_insts-Jumps (some next) none a i is s0 k d)
          (λ s' j. close-GoesOn next (last_of i is) s0 s' d j))
    where
      same :
          (m : Result LiftError Emit)
          → Ensures
              (GoesOn
                (IrBlock.of_mbb mbb)
                (IrBlock.of_mbb next)
                (record s { here = IrBlock.of_mbb mbb }))
              m
          → Ensures (GoesOn (IrBlock.of_mbb mbb) (IrBlock.of_mbb next) s) m
      same (err x) h = tt
      same (ok s') h = record { body = h.body; out = h.out; plain = h.plain }

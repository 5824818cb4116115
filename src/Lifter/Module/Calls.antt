-- ===== src/Lifter/Module/Calls.antt =====
-- A call of a lifted function is changed to a call of its clone.
use llvm_bleach.Base.{
  ℕ, ◌≡◌, refl, sym, ◌∙◌, inl, inr, true, List, [], ◌∷◌, map, some, ok, All, Bool-cases, any_of,
  is_contained, if◌then◌else◌,
}
use llvm_bleach.Mctomir.Machine.{MachineOperand, MachineInstr, MachineBlock, find_address}
use llvm_bleach.Lifter.Control.{Queries, is_call, is_global}
use llvm_bleach.Lifter.Clone.Replace.{rename_operand, rename_instr}
use llvm_bleach.Lifter.Module.{change_callee, change_call, change_calls_in, change_block_calls}

-- The first global operand, renamed.
abbrev pub call_renamed : (ℕ → ℕ) → List MachineOperand → List MachineOperand
call_renamed ren [] = []
call_renamed ren (MachineOperand.global f ∷ ops) = MachineOperand.global (ren f) ∷ ops
call_renamed ren (MachineOperand.block b ∷ ops) = MachineOperand.block b ∷ call_renamed ren ops
call_renamed ren (MachineOperand.reg r s ∷ ops) = MachineOperand.reg r s ∷ call_renamed ren ops
call_renamed ren (MachineOperand.imm v ∷ ops) = MachineOperand.imm v ∷ call_renamed ren ops

-- The first global operand is one of the functions, if there is one.
abbrev pub CalleeIn : List ℕ → List MachineOperand → Type 0
CalleeIn ids [] = Unit
CalleeIn ids (MachineOperand.global f ∷ ops) = is_contained f ids ≡ true
CalleeIn ids (MachineOperand.block b ∷ ops) = CalleeIn ids ops
CalleeIn ids (MachineOperand.reg r s ∷ ops) = CalleeIn ids ops
CalleeIn ids (MachineOperand.imm v ∷ ops) = CalleeIn ids ops

CalleeIn-rename :
    (ids : List ℕ) (ren : ℕ → ℕ) (ops : List MachineOperand)
    → CalleeIn ids ops
    → CalleeIn ids (map (rename_operand ren) ops)
CalleeIn-rename ids ren [] h = tt
CalleeIn-rename ids ren (MachineOperand.global f ∷ ops) h = h
CalleeIn-rename ids ren (MachineOperand.block b ∷ ops) h = CalleeIn-rename ids ren ops h
CalleeIn-rename ids ren (MachineOperand.reg r s ∷ ops) h = CalleeIn-rename ids ren ops h
CalleeIn-rename ids ren (MachineOperand.imm v ∷ ops) h = CalleeIn-rename ids ren ops h

any_global-rename :
    (ren : ℕ → ℕ) (ops : List MachineOperand)
    → any_of is_global (map (rename_operand ren) ops) ≡ any_of is_global ops
any_global-rename ren [] = refl
any_global-rename ren (MachineOperand.global f ∷ ops) = refl
any_global-rename ren (MachineOperand.block b ∷ ops) = any_global-rename ren ops
any_global-rename ren (MachineOperand.reg r s ∷ ops) = any_global-rename ren ops
any_global-rename ren (MachineOperand.imm v ∷ ops) = any_global-rename ren ops

is_call-rename :
    (q : Queries) (ren : ℕ → ℕ) (i : MachineInstr) → is_call q (rename_instr ren i) ≡ is_call q i
unfolding is_call
is_call-rename q ren i = rw (any_global-rename ren i.operands) refl

module _ (q : Queries) (ids : List ℕ) where
  -- Calls go to functions of the module.
  abbrev pub KnownCall : MachineInstr → Type 0
  KnownCall i = is_call q i ≡ true → CalleeIn ids i.operands

  pub KnownCall-rename :
      (ren : ℕ → ℕ) (is : List MachineInstr)
      → All KnownCall is
      → All KnownCall (map (rename_instr ren) is)
  KnownCall-rename ren [] h = tt
  KnownCall-rename ren (i ∷ is) h = (
    λ c. CalleeIn-rename ids ren i.operands (h.0 (sym (is_call-rename q ren i) ∙ c)),
    KnownCall-rename ren is h.1,
  )

module _ (q : Queries) (clone_of : ℕ → ℕ) where
  -- A call goes to the clone; other instructions stay as they are.
  abbrev pub to_clone : MachineInstr → MachineInstr
  to_clone i = if is_call q i then record i { operands = call_renamed clone_of i.operands } else i

  abbrev pub calls_to_clones : MachineBlock → MachineBlock
  calls_to_clones b = record b { instrs = map to_clone b.instrs }

module _ (q : Queries) (ids : List ℕ) (clone_of : ℕ → ℕ) (funcs : List (ℕ × ℕ))
    (found : (f : ℕ) → is_contained f ids ≡ true → find_address f funcs ≡ some (clone_of f)) where
  change_callee_renamed :
      (ops : List MachineOperand)
      → CalleeIn ids ops
      → change_callee funcs ops ≡ ok (call_renamed clone_of ops)
  unfolding change_callee
  change_callee_renamed [] h = refl
  change_callee_renamed (MachineOperand.global f ∷ ops) h = rw (found f h) refl
  change_callee_renamed (MachineOperand.block b ∷ ops) h = rw (change_callee_renamed ops h) refl
  change_callee_renamed (MachineOperand.reg r s ∷ ops) h = rw (change_callee_renamed ops h) refl
  change_callee_renamed (MachineOperand.imm v ∷ ops) h = rw (change_callee_renamed ops h) refl

  change_calls_renamed :
      (is : List MachineInstr)
      → All (KnownCall q ids) is
      → change_calls_in q funcs is ≡ ok (map (to_clone q clone_of) is)
  unfolding change_calls_in change_call
  change_calls_renamed [] h = refl
  change_calls_renamed (i ∷ is) h = elim (Bool-cases (is_call q i)) [
    | inl c ↦ rw (c, change_callee_renamed i.operands (h.0 c), change_calls_renamed is h.1) refl
    | inr c ↦ rw (c, change_calls_renamed is h.1) refl
  ]

  pub change_blocks_renamed :
      (bs : List MachineBlock)
      → All (λ b. All (KnownCall q ids) b.instrs) bs
      → change_block_calls q funcs bs ≡ ok (map (calls_to_clones q clone_of) bs)
  unfolding change_block_calls
  change_blocks_renamed [] h = refl
  change_blocks_renamed (b ∷ bs) h =
      rw (change_calls_renamed b.instrs h.0, change_blocks_renamed bs h.1) refl

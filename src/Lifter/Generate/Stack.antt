-- ===== src/Lifter/Generate/Stack.antt =====
-- The slots of a stack frame: `generate_stack_pointer_modification` counts slots of eight bytes, and
-- `generate_load_store_from_stack` those of the width of the stack pointer's register.
use llvm_bleach.Base.{
  ℕ, zero, suc, ◌+◌, ◌-◌, ◌*◌, ◌/◌, ◌≤◌, ◌<◌, ◌≡◌, refl, ap, ◌∙◌, true, List, [], ◌∷◌, ok, arith,
  ==_refl,
}
use llvm_bleach.Base.Int.{ℤ, pos, negsuc, neg, quot, eqℤ, ◌+ℤ◌}
use llvm_bleach.Mctomir.Machine.{MachineOperand, RegState}
use llvm_bleach.Lifter.Control.{Arg}
use llvm_bleach.Lifter.Generate.{stack_args, stack_offset}

eqℤ_same : (a : ℤ) → eqℤ a a ≡ true
eqℤ_same (pos n) = ==_refl n
eqℤ_same (negsuc n) = ==_refl n

neg-neg : (n : ℕ) → neg (neg (pos n)) ≡ pos n
neg-neg zero = refl
neg-neg (suc n) = refl

quot-neg : (n d : ℕ) → 0 / d ≡ 0 → quot (neg (pos n)) d ≡ neg (pos (n / d))
quot-neg zero d e = rw e refl
quot-neg (suc n) d e = refl

add-neg : (a m : ℕ) → m ≤ a → pos a +ℤ neg (pos m) ≡ pos (a - m)
add-neg a zero h = ground arith
add-neg a (suc m) h = ground arith

-- `addi sp, sp, -frame`, and a load or a store at an offset from the stack pointer.
abbrev pub reserve : ℕ → List MachineOperand
reserve frame = MachineOperand.reg 2 RegState.no_flags ∷ MachineOperand.imm (neg (pos frame)) ∷ []

abbrev pub access_at : ℕ → List MachineOperand
access_at offset = MachineOperand.reg 2 RegState.no_flags ∷ MachineOperand.imm (pos offset) ∷ []

-- The stack pointer rises by the slots of the frame.
reserve-args :
    (k : ℕ)
    → stack_args (neg (pos (8 * k))) (reserve (8 * k))
      ≡ ok (Arg.operand (MachineOperand.reg 2 RegState.no_flags) ∷ Arg.slots (pos k) ∷ [])
reserve-args k =
    let e : (8 * k) / 8 ≡ k = omega arith in
    rw (eqℤ_same (neg (pos (8 * k))), neg-neg (8 * k), e) refl

access-index :
    (sp k d i m : ℕ)
    → 0 / d ≡ 0
    → i / d ≡ m
    → m ≤ sp + k
    → (pos sp +ℤ pos k) +ℤ stack_offset d (access_at i) ≡ pos (sp + k - m)
unfolding stack_offset
access-index sp k d i m z e h = rw (quot-neg i d z, e) (add-neg (sp + k) m h)

-- With a stack pointer of eight bytes a frame of `8 * k` bytes takes the `k` slots above the old stack
-- pointer, and the word at the offset `8 * j` within it is the slot `k - j` of these.
pub frame_slots_64 :
    (sp k j : ℕ)
    → j < k
    → (stack_args (neg (pos (8 * k))) (reserve (8 * k))
        ≡ ok (Arg.operand (MachineOperand.reg 2 RegState.no_flags) ∷ Arg.slots (pos k) ∷ []))
      × ((pos sp +ℤ pos k) +ℤ stack_offset 8 (access_at (8 * j)) ≡ pos (sp + (k - j)))
frame_slots_64 sp k j h = (
  reserve-args k,
  access-index sp k 8 (8 * j) j refl (omega arith) (omega arith) ∙ ap pos (omega arith),
)

-- With a stack pointer of four bytes a frame of `8 * k` bytes takes `k` slots as well, but its last
-- word, at the offset `8 * k - 4`, is a slot at or below the old stack pointer, outside the frame.
pub frame_slots_32 :
    (sp k : ℕ)
    → 0 < k
    → k ≤ sp
    → (stack_args (neg (pos (8 * k))) (reserve (8 * k))
        ≡ ok (Arg.operand (MachineOperand.reg 2 RegState.no_flags) ∷ Arg.slots (pos k) ∷ []))
      × (slot : ℕ) × ((pos sp +ℤ pos k) +ℤ stack_offset 4 (access_at (8 * k - 4)) ≡ pos slot)
      × (slot ≤ sp)
frame_slots_32 sp k h l = (
  reserve-args k,
  sp + k - (2 * k - 1),
  access-index sp k 4 (8 * k - 4) (2 * k - 1) refl (omega arith) (omega arith),
  omega arith,
)

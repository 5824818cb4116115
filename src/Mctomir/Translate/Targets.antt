-- ===== src/Mctomir/Translate/Targets.antt =====
-- Branches in machine blocks: every block operand is a successor of its block, before and after the
-- blocks are linked. The cloning of the lifter rests on this.
use llvm_bleach.Base.{
  All-imp, ℕ, suc, ◌≡◌, inl, inr, Bool, true, false, ◌&&◌, List, [], ◌∷◌, ◌++◌, Option, none, some,
  err, or_error, Bool-cases, All, All-append, Ensures, Ensures-bind, Ensures-any, arith, add64,
  ◌==◌, if◌then◌else◌, is_contained, ==_refl, length,
}
use llvm_bleach.Mctomir.Inst.{McInst, McOperand, InstrAnalysis, TranslatedInst}
use llvm_bleach.Mctomir.Machine.{
  Machine, MachineBlock, MachineInstr, MachineOperand, find_address, block_at, push_successor,
}
use llvm_bleach.Mctomir.Translate.{
  InstrInfo, TranslateError, Built, add_operand_to_mib, fill_operands, operands_of, plain_instr,
  call_instr, branch_instr, is_imm, ends_in_imm, build_instr, known_target, insert_built, is_call,
  is_tail_call,
}

-- A block operand is among the successors; other operands do not matter.
abbrev pub OperandIn : List ℕ → MachineOperand → Type 0
OperandIn succs (MachineOperand.block id) = is_contained id succs ≡ true
OperandIn succs (MachineOperand.reg r s) = Unit
OperandIn succs (MachineOperand.imm v) = Unit
OperandIn succs (MachineOperand.global f) = Unit

abbrev pub InstrIn : List ℕ → MachineInstr → Type 0
InstrIn succs i = All (OperandIn succs) i.operands

abbrev pub IsClosed : MachineBlock → Type 0
IsClosed b = All (InstrIn b.successors) b.instrs

is_contained-push :
    (a s : ℕ) (succs : List ℕ)
    → is_contained a succs ≡ true
    → is_contained a (succs ++ s ∷ []) ≡ true
is_contained-push a s [] h = cc
is_contained-push a s (x ∷ succs) h = ground (arith, is_contained-push a s succs)

is_contained_last : (s : ℕ) (succs : List ℕ) → is_contained s (succs ++ s ∷ []) ≡ true
is_contained_last s [] = ground (arith, ==_refl s)
is_contained_last s (x ∷ succs) = ground (arith, is_contained_last s succs)

OperandIn-push :
    (s : ℕ) (succs : List ℕ) (o : MachineOperand)
    → OperandIn succs o
    → OperandIn (succs ++ s ∷ []) o
OperandIn-push s succs (MachineOperand.block id) h = is_contained-push id s succs h
OperandIn-push s succs (MachineOperand.reg r f) h = tt
OperandIn-push s succs (MachineOperand.imm v) h = tt
OperandIn-push s succs (MachineOperand.global f) h = tt

pub push_successor-IsClosed :
    (s : ℕ) (b : MachineBlock) → IsClosed b → IsClosed (push_successor s b)
push_successor-IsClosed s b h =
    All-imp (InstrIn b.successors) (InstrIn (b.successors ++ s ∷ [])) b.instrs
      (λ i.
        All-imp (OperandIn b.successors) (OperandIn (b.successors ++ s ∷ [])) i.operands
          (OperandIn-push s b.successors))
      h

-- The operands that are copied from an instruction hold no block.
add_operand-OperandIn :
    (info : InstrInfo) (op : McOperand) (i opcode : ℕ) (succs : List ℕ)
    → Ensures (OperandIn succs) (add_operand_to_mib info op i opcode)
unfolding add_operand_to_mib
add_operand-OperandIn info (McOperand.reg r) i opcode succs = ground arith
add_operand-OperandIn info (McOperand.imm v) i opcode succs = tt
add_operand-OperandIn info McOperand.other i opcode succs = tt

fill_operands-OperandIn :
    (info : InstrInfo) (is_branch : Bool) (opcode n i : ℕ) (ops : List McOperand) (succs : List ℕ)
    → Ensures (All (OperandIn succs)) (fill_operands info is_branch opcode n i ops)
unfolding fill_operands
fill_operands-OperandIn info is_branch opcode n i [] succs = tt
fill_operands-OperandIn info is_branch opcode n i (op ∷ ops) succs =
    elim (Bool-cases (is_branch && (suc i == n) && is_imm op)) [
      | inl e ↦ rw e tt
      | inr e ↦ rw e (
          Ensures-bind (OperandIn succs) (All (OperandIn succs))
            (add_operand_to_mib info op i opcode) _ (add_operand-OperandIn info op i opcode succs)
            (λ o ho.
              Ensures-bind (All (OperandIn succs)) (All (OperandIn succs))
                (fill_operands info is_branch opcode n (suc i) ops) _
                (fill_operands-OperandIn info is_branch opcode n (suc i) ops succs)
                (λ os hos. (ho, hos))))
    ]

-- What is built has block operands only for the successor that it brings.
abbrev pub BuiltIn : Built → Type 0
BuiltIn (i, none) = InstrIn [] i
BuiltIn (i, some s) = InstrIn (s ∷ []) i

plain_instr-BuiltIn :
    (info : InstrInfo) (is_branch : Bool) (inst : McInst)
    → Ensures BuiltIn (plain_instr info is_branch inst)
plain_instr-BuiltIn info is_branch inst =
    Ensures-bind (All (OperandIn [])) BuiltIn (operands_of info is_branch inst) _
      (fill_operands-OperandIn info is_branch inst.opcode (length inst.operands) 0 inst.operands [])
      (λ os h. h)

call_instr-BuiltIn :
    (info : InstrInfo) (inst : McInst) (tail : Bool) (target : ℕ)
    → Ensures BuiltIn (call_instr info inst tail target)
call_instr-BuiltIn info inst true target = (tt, tt)
call_instr-BuiltIn info inst false target =
    Ensures-bind (All (OperandIn [])) BuiltIn (operands_of info true inst) _
      (fill_operands-OperandIn info true inst.opcode (length inst.operands) 0 inst.operands [])
      (λ os h. All-append (OperandIn []) os (MachineOperand.global target ∷ []) h (tt, tt))

branch_instr-BuiltIn :
    (info : InstrInfo) (inst : McInst) (target : ℕ)
    → Ensures BuiltIn (branch_instr info inst target)
branch_instr-BuiltIn info inst target =
    let succs : List ℕ = target ∷ [] in
    Ensures-bind (All (OperandIn succs)) BuiltIn (operands_of info true inst) _
      (fill_operands-OperandIn info true inst.opcode (length inst.operands) 0 inst.operands succs)
      (λ os h.
        All-append (OperandIn succs) os (MachineOperand.block target ∷ []) h
          (ground (arith, ==_refl target), tt))

known_target-BuiltIn :
    (mia : InstrAnalysis) (info : InstrInfo) (m : Machine) (inst : McInst) (parent target : ℕ)
    → Ensures BuiltIn (known_target mia info m inst parent target)
unfolding known_target
known_target-BuiltIn mia info m inst parent target =
    Ensures-bind (λ _. Unit {0}) BuiltIn
      (or_error (block_at m target) TranslateError.dangling_block) _ (Ensures-any _)
      (λ tb h. elim (Bool-cases (is_call mia inst parent tb.parent)) [
        | inl e ↦
            rw e (call_instr-BuiltIn info inst (is_tail_call mia inst parent tb.parent) tb.parent)
        | inr e ↦ rw e (branch_instr-BuiltIn info inst target)
      ])

pub build_instr-BuiltIn :
    (mia : InstrAnalysis) (info : InstrInfo) (m : Machine) (t : TranslatedInst) (parent : ℕ)
    → Ensures BuiltIn (build_instr mia info m t parent)
unfolding build_instr
build_instr-BuiltIn mia info m t parent = go (mia.evaluate_branch t.inst 0 4)
  where
    found :
        (o : Option ℕ)
        → Ensures BuiltIn (elim o [
          | some id ↦ known_target mia info m t.inst parent id
          | none ↦ plain_instr info true t.inst
        ])
    found (some id) = known_target-BuiltIn mia info m t.inst parent id
    found none = plain_instr-BuiltIn info true t.inst

    go :
        (o : Option ℕ)
        → Ensures BuiltIn (elim o [
          | none ↦ plain_instr info false t.inst
          | some target ↦
              if ends_in_imm t.inst.operands
              then elim (find_address (add64 target t.address) m.address_to_mbb) [
                | some id ↦ known_target mia info m t.inst parent id
                | none ↦ plain_instr info true t.inst
              ]
              else err TranslateError.assertion
        ])
    go none = plain_instr-BuiltIn info false t.inst
    go (some target) = elim (Bool-cases (ends_in_imm t.inst.operands)) [
      | inl e ↦ rw e (found (find_address (add64 target t.address) m.address_to_mbb))
      | inr e ↦ rw e tt
    ]

InstrIn-more : (xs : List ℕ) (i : MachineInstr) → InstrIn [] i → InstrIn xs i
InstrIn-more xs i h = All-imp (OperandIn []) (OperandIn xs) i.operands go h
  where
    go : (o : MachineOperand) → OperandIn [] o → OperandIn xs o
    go (MachineOperand.block id) e = cc
    go (MachineOperand.reg r f) e = tt
    go (MachineOperand.imm v) e = tt
    go (MachineOperand.global f) e = tt

InstrIn-last :
    (xs : List ℕ) (s : ℕ) (i : MachineInstr) → InstrIn (s ∷ []) i → InstrIn (xs ++ s ∷ []) i
InstrIn-last xs s i h = All-imp (OperandIn (s ∷ [])) (OperandIn (xs ++ s ∷ [])) i.operands go h
  where
    go : (o : MachineOperand) → OperandIn (s ∷ []) o → OperandIn (xs ++ s ∷ []) o
    go (MachineOperand.block id) e =
        let same : id ≡ s = ground arith in rw same (is_contained_last s xs)
    go (MachineOperand.reg r f) e = tt
    go (MachineOperand.imm v) e = tt
    go (MachineOperand.global f) e = tt

pub insert_built-IsClosed :
    (x : Built) (b : MachineBlock) → BuiltIn x → IsClosed b → IsClosed (insert_built x b)
insert_built-IsClosed (i, none) b hx h =
    All-append (InstrIn b.successors) b.instrs (i ∷ []) h (InstrIn-more b.successors i hx, tt)
insert_built-IsClosed (i, some s) b hx h =
    All-append (InstrIn (b.successors ++ s ∷ [])) b.instrs (i ∷ []) (push_successor-IsClosed s b h)
      (InstrIn-last b.successors s i hx, tt)

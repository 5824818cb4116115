-- ===== src/Lifter/Values/Slots.antt =====
-- The emitted code of instructions that change the stack pointer, or that load from the stack or store
-- to it, does what the instructions do.
use llvm_bleach.Base.{
  ℕ, if◌then◌else◌, ◌≡◌, refl, ◌∙◌, ap, subst, arith, List, [], ◌∷◌, false, or_error, Both,
  Both-bind, Both-imp, Both-same,
}
use llvm_bleach.Base.Int.{ℤ, neg, quot, eqℤ}
use llvm_bleach.Mctomir.Machine.{MachineOperand, MachineInstr}
use llvm_bleach.Lifter.Control.{Queries}
use llvm_bleach.Lifter.Generate.{first_imm}
use llvm_bleach.Lifter.Values.{
  IrType, Value, Op, Builder, RegisterFile, ValueError, type_of, define_with, word, variable_of,
}
use llvm_bleach.Lifter.Values.Instructions.{
  stack_arg, stack_args, generate_stack_pointer_modification, write_first,
}
use llvm_bleach.Lifter.Values.Machine.{Cpu, truncate}
use llvm_bleach.Lifter.Values.Exec.{
  Core, read_stack_operand, read_stack_operands, exec_stack_pointer_modification, load_to,
}
use llvm_bleach.Lifter.Values.Run.{Frame, step, run_snoc, set_temp}
use llvm_bleach.Lifter.Values.Reads.{
  at_end, Extends, Extends-refl, Extends-trans, Extends-define_with, temps-define_with,
  MeansOption-Extends, word_fits,
}
use llvm_bleach.Lifter.Values.Operands.{IsRead, IsReadAll, IsRead-constant, operand_to_value-IsRead}
use llvm_bleach.Lifter.Values.Casts.{Gives}
use llvm_bleach.Lifter.Values.Agree.{core_of, all_non_null-GivesAll, call_behind-Agrees}

module _ {M : Type 0} (apply : ℕ → List ℕ → M → ℕ × M) (start : Frame M) (q : Queries)
    (regs : RegisterFile) where
  stack_arg-IsRead :
      (v : ℤ) (op : MachineOperand) (b : Builder)
      → Both
          (IsRead apply start b)
          (stack_arg q regs v op b)
          (read_stack_operand q regs v op (at_end apply start b).cpu.vars)
  stack_arg-IsRead v (MachineOperand.imm w) b =
      let x = if eqℤ w v then quot (neg w) 8 else w in
      Both.gave (IsRead-constant apply start b (word x) (word_fits x))
  stack_arg-IsRead v (MachineOperand.reg r f) b =
      operand_to_value-IsRead apply start q regs (MachineOperand.reg r f) b
  stack_arg-IsRead v (MachineOperand.global f) b =
      operand_to_value-IsRead apply start q regs (MachineOperand.global f) b
  stack_arg-IsRead v (MachineOperand.block m) b =
      operand_to_value-IsRead apply start q regs (MachineOperand.block m) b

  stack_args-IsReadAll :
      (v : ℤ) (ops : List MachineOperand) (b : Builder)
      → Both
          (λ r ws. Extends apply start b r.1 × IsReadAll apply start r.1 r.0 ws)
          (stack_args q regs v ops b)
          (read_stack_operands q regs v ops (at_end apply start b).cpu.vars)
  stack_args-IsReadAll v [] b = Both.gave (Extends-refl apply start b, tt)
  stack_args-IsReadAll v (op ∷ ops) b = Both-bind (stack_arg-IsRead v op b) λ a w h.
      let others =
        subst
          (λ cpu.
            Both (λ r ws. Extends apply start a.1 r.1 × IsReadAll apply start r.1 r.0 ws)
              (stack_args q regs v ops a.1) (read_stack_operands q regs v ops cpu.vars))
          h.0.same_cpu (stack_args-IsReadAll v ops a.1) in
      Both-bind others λ vs ws k. Both.gave (
        Extends-trans apply start b a.1 vs.1 h.0 k.0,
        (MeansOption-Extends apply start a.1 vs.1 a.0 w k.0 h.1, k.1),
      )

  pub generate_stack_pointer_modification-Agrees :
      (i : MachineInstr) (b : Builder)
      → Both
          (λ b' c. core_of apply start b' ≡ c)
          (generate_stack_pointer_modification q regs i b)
          (exec_stack_pointer_modification q regs apply i (core_of apply start b))
  unfolding generate_stack_pointer_modification
  generate_stack_pointer_modification-Agrees i b =
      Both-same (or_error (first_imm (q.uses i)) ValueError.no_immediate) _ _ λ v.
        Both-bind (stack_args-IsReadAll v (q.uses i) b) λ values ws h.
          Both-same (or_error (regs.functions i.opcode) ValueError.no_function) _ _ λ ft.
            Both-bind (all_non_null-GivesAll apply start values.1 values.0 ws h.1)
              λ args xs k. call_behind-Agrees apply start q regs false i ft args xs b values.1 h.0 k

  -- What a builder leaves of the machine, with the tracker as it was.
  abbrev pub Leaves : Builder → Builder → Cpu M → Type 0
  Leaves b b' cpu = core_of apply start b' ≡ record { tracker = b.tracker; cpu = cpu }

  pub Leaves-Extends :
      (b c d : Builder) (cpu : Cpu M) → Extends apply start b c → Leaves c d cpu → Leaves b d cpu
  Leaves-Extends b c d cpu ext h =
      h ∙ ap {A = List ℕ} {B = Core M} (λ t. record { tracker = t; cpu = cpu }) ext.same_tracker

  write_first-Leaves :
      (v : Value) (x : ℕ) (defs : List MachineOperand) (b : Builder)
      → Gives apply start b v x
      → Both
          (Leaves b)
          (write_first q regs v defs b)
          (load_to q regs apply (type_of v) x defs (at_end apply start b).cpu)
  write_first-Leaves v x [] b g = Both.gave refl
  write_first-Leaves v x (MachineOperand.reg r f ∷ ops) b g =
      Both-same (variable_of regs r) _ _
        λ a. Both.gave (rw (run_snoc apply b.ops (Op.store v a) start, g.has_value) refl)
  write_first-Leaves v x (MachineOperand.imm w ∷ ops) b g = Both.failed
  write_first-Leaves v x (MachineOperand.global f ∷ ops) b g = Both.failed
  write_first-Leaves v x (MachineOperand.block m ∷ ops) b g = Both.failed

  pub load-Leaves :
      (ty : IrType) (defs : List MachineOperand) (idx : Value) (x : ℕ) (b : Builder)
      → Gives apply start b idx x
      → let cpu = (at_end apply start b).cpu in
        Both
          (Leaves b)
          (write_first q regs
            (Value.temp b.next ty)
            defs
            (define_with (λ t. Op.stack_load t ty idx) b))
          (load_to q regs apply ty (truncate ty (cpu.stack x)) defs cpu)
  load-Leaves ty defs idx x b g =
      let op : ℕ → Op = λ t. Op.stack_load t ty idx in
      let s = at_end apply start b in
      let y = truncate ty (s.cpu.stack x) in
      let sets : step apply (op b.next) s ≡ set_temp b.next y s = rw g.has_value refl in
      let ext = Extends-define_with apply start op b y sets in
      let given : Gives apply start (define_with op b) (Value.temp b.next ty) y = record {
        is_defined = omega arith;
        has_value = temps-define_with apply start op b y sets;
      } in
      subst
        (λ cpu.
          Both (Leaves b) (write_first q regs (Value.temp b.next ty) defs (define_with op b))
            (load_to q regs apply ty y defs cpu))
        ext.same_cpu
        (Both-imp (write_first-Leaves (Value.temp b.next ty) y defs (define_with op b) given)
          λ b' cpu h. Leaves-Extends b (define_with op b) b' cpu ext h)

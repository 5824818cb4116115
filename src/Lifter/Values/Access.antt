-- ===== src/Lifter/Values/Access.antt =====
-- The emitted code of loads from the stack and stores to it does what the instructions do.
use llvm_bleach.Base.{
  ℕ, suc, ◌+◌, ◌/◌, ◌%◌, ◌^◌, ◌==◌, ◌≡◌, refl, sym, ◌∙◌, subst, arith, List, [], ◌∷◌, not, Option,
  none, some, length, Result, ok, err, ◌>>=◌, or_error, Both, Both-bind, Both-same, Both-if,
  Both-known, Both-map, if◌then◌else◌,
}
use llvm_bleach.Mctomir.Machine.{MachineOperand, MachineInstr}
use llvm_bleach.Lifter.Stats.{RegisterClass}
use llvm_bleach.Lifter.Control.{Queries}
use llvm_bleach.Lifter.Generate.{stack_offset}
use llvm_bleach.Lifter.Values.{
  IrType, Value, Op, Builder, RegisterFile, ValueError, type_of, define_with, insert, word,
  class_for, variable_of, non_null,
}
use llvm_bleach.Lifter.Values.Instructions.{
  stack_access, first_use, no_definition, get_stack_pointer, same_type,
  generate_load_store_from_stack, get_stack_pointer_value, read_register_value,
}
use llvm_bleach.Lifter.Values.Machine.{Word}
use llvm_bleach.Lifter.Values.Exec.{Core, value_of, exec_access, exec_stack, store_from}
use llvm_bleach.Lifter.Values.Run.{Frame, step, run_snoc, set_temp}
use llvm_bleach.Lifter.Values.Reads.{
  at_end, Extends, Extends-trans, Extends-define_with, temps-define_with, Means, MeansOption,
}
use llvm_bleach.Lifter.Values.Operands.{operand_to_value-IsRead}
use llvm_bleach.Lifter.Values.Casts.{Gives, Gives-Extends}
use llvm_bleach.Lifter.Values.Agree.{core_of}
use llvm_bleach.Lifter.Values.Slots.{Leaves, Leaves-Extends, load-Leaves}

module _ {M : Type 0} (apply : ℕ → List ℕ → M → ℕ × M) (start : Frame M) (q : Queries)
    (regs : RegisterFile) where
  non_null-Means :
      (b : Builder) (v : Option Value) (w : Option Word)
      → MeansOption apply start b v w
      → Both (Means apply start b) (non_null v) (value_of w)
  non_null-Means b none none h = Both.failed
  non_null-Means b (some v) (some w) h = Both.gave h
  non_null-Means b none (some w) h = elim h [ ]
  non_null-Means b (some v) none h = elim h [ ]

  store-Leaves :
      (ops defs : List MachineOperand) (idx : Value) (x : ℕ) (b : Builder)
      → Gives apply start b idx x
      → Both
          (Leaves apply start q regs b)
          (do
            value ← first_use q regs ops b
            stored ← non_null value.0
            no_definition q regs defs (insert (Op.stack_store stored idx) value.1))
          (store_from q regs apply x ops defs (at_end apply start b).cpu)
  store-Leaves [] defs idx x b g = Both.failed
  store-Leaves (op ∷ ops) [] idx x b g =
      Both-bind (operand_to_value-IsRead apply start q regs op b) λ r w h.
        Both-bind (non_null-Means r.1 r.0 w h.1) λ v y m.
          let index = Gives-Extends apply start b r.1 idx x h.0 g in
          let stored = run_snoc apply r.1.ops (Op.stack_store v idx) start in
          Both.gave (
            rw (stored, index.has_value, m.has_type, m.has_value, h.0.same_cpu, h.0.same_tracker)
              refl)
  store-Leaves (op ∷ ops) (d ∷ defs) idx x b g =
      Both-bind (operand_to_value-IsRead apply start q regs op b)
        λ r w h. Both-bind (non_null-Means r.1 r.0 w h.1) λ v y m. Both.failed

  stack_access-Leaves :
      (i : MachineInstr) (idx : Value) (x : ℕ) (b : Builder)
      → Gives apply start b idx x
      → Both
          (Leaves apply start q regs b)
          (stack_access q regs i idx b)
          (exec_access q regs apply i x (at_end apply start b).cpu)
  unfolding stack_access
  stack_access-Leaves i idx x b g =
      Both-if (q.may_load i.opcode)
        (Both-if (q.may_store i.opcode) Both.failed (
          Both-same (or_error (regs.functions i.opcode) ValueError.no_function) _ _
            λ ft. load-Leaves apply start q regs ft.ret (q.defs i) idx x b g))
        (Both-if (not (length (q.uses i) == 3)) Both.failed
          (store-Leaves (q.uses i) (q.defs i) idx x b g))

  bind_known :
      {A B C D : Type 0} (m : Result ValueError A) (n : Result ValueError B) (c : B) (g : A → B → C)
      (f : C → Result ValueError D)
      → n ≡ ok c
      → ((m >>= λ v. n >>= λ k. ok (g v k)) >>= f) ≡ (m >>= λ v. f (g v c))
  bind_known (ok v) n c g f e = rw e refl
  bind_known (err why) n c g f e = refl

  abbrev loaded : Builder → RegisterClass → ℕ → Value × Builder
  loaded b rclass v =
      (Value.temp b.next (IrType.int rclass.bits), define_with (λ t. Op.load t rclass.bits v) b)

  -- The stack pointer is found twice, and its class too.
  get_stack_pointer_value-loaded :
      {D : Type 0} (b : Builder) (sp_reg : ℕ) (rclass : RegisterClass)
      (f : Value × Builder → Result ValueError D)
      → get_stack_pointer regs ≡ ok sp_reg
      → class_for regs sp_reg ≡ ok rclass
      → (get_stack_pointer_value regs b >>= f)
        ≡ (variable_of regs sp_reg >>= λ v. f (loaded b rclass v))
  unfolding get_stack_pointer_value read_register_value
  get_stack_pointer_value-loaded b sp_reg rclass f e e' =
      let found : (get_stack_pointer_value regs b >>= f)
          ≡ (read_register_value regs sp_reg b >>= f) =
        rw e refl in
      found
      ∙ bind_known (variable_of regs sp_reg) (class_for regs sp_reg) rclass (λ v k. loaded b k v) f
          e'

  abbrev indexed : Value × Builder → ℕ → Builder
  indexed sp offset = define_with (λ t. Op.add t sp.0 (Value.const 64 offset)) sp.1

  -- The stack pointer with the offset, as the index of a slot.
  indexed-Gives :
      (b : Builder) (rclass : RegisterClass) (v offset : ℕ)
      → let c = indexed (loaded b rclass v) offset in
        Extends apply start b c
        × Gives apply start c
            (Value.temp (suc b.next) (IrType.int rclass.bits))
            (((at_end apply start b).cpu.vars v % 2 ^ rclass.bits + offset) % 2 ^ 64)
  indexed-Gives b rclass v offset =
      let load : ℕ → Op = λ t. Op.load t rclass.bits v in
      let sp = (at_end apply start b).cpu.vars v % 2 ^ rclass.bits in
      let b' = (loaded b rclass v).1 in
      let add : ℕ → Op = λ t. Op.add t (loaded b rclass v).0 (Value.const 64 offset) in
      let idx = (sp + offset) % 2 ^ 64 in
      let sets : step apply (add b'.next) (at_end apply start b')
          ≡ set_temp b'.next idx (at_end apply start b') =
        rw (temps-define_with apply start load b sp refl) refl in
      (
        Extends-trans apply start b b' (indexed (loaded b rclass v) offset)
            (Extends-define_with apply start load b sp refl)
            (Extends-define_with apply start add b' idx sets),
        record {
          is_defined = omega arith;
          has_value = temps-define_with apply start add b' idx sets;
        },
      )

  -- What is left when the stack pointer and its class are found.
  abbrev exec_at : MachineInstr → Builder → ℕ → RegisterClass → ℕ → Result ValueError (Core M)
  exec_at i b sp_reg rclass offset = do
    v ← variable_of regs sp_reg
    let sp = (at_end apply start b).cpu.vars v % 2 ^ rclass.bits
    if rclass.bits == 64
        then (do
          cpu ← exec_access q regs apply i ((sp + offset) % 2 ^ 64) (at_end apply start b).cpu
          ok (record { tracker = b.tracker; cpu = cpu }))
        else err ValueError.assertion

  pub generate_load_store_from_stack-Agrees :
      (i : MachineInstr) (b : Builder)
      → Both
          (λ b' c. core_of apply start b' ≡ c)
          (generate_load_store_from_stack q regs i b)
          (exec_stack q regs apply i (core_of apply start b))
  unfolding generate_load_store_from_stack
  generate_load_store_from_stack-Agrees i b = Both-known (get_stack_pointer regs) _ _ λ sp_reg e.
      Both-known (class_for regs sp_reg) _ _ λ rclass e'.
        let offset = word (stack_offset (rclass.bits / 8) (q.uses i)) in
        subst (λ r. Both (λ b' c. core_of apply start b' ≡ c) r (exec_at i b sp_reg rclass offset))
          (sym (
            get_stack_pointer_value-loaded b sp_reg rclass
              (λ sp.
                if same_type (type_of sp.0) (IrType.int 64)
                then stack_access q regs i (Value.temp sp.1.next (type_of sp.0)) (indexed sp offset)
                else err ValueError.assertion)
              e e'))
          (Both-same (variable_of regs sp_reg) _ _ λ v.
            let (ext, given) = indexed-Gives b rclass v offset in
            let c = indexed (loaded b rclass v) offset in
            let idx = Value.temp (suc b.next) (IrType.int rclass.bits) in
            let x = ((at_end apply start b).cpu.vars v % 2 ^ rclass.bits + offset) % 2 ^ 64 in
            Both-if (rclass.bits == 64)
              (Both-map (λ cpu. record { tracker = b.tracker; cpu = cpu })
                (subst
                  (λ cpu.
                    Both (Leaves apply start q regs c) (stack_access q regs i idx c)
                      (exec_access q regs apply i x cpu))
                  ext.same_cpu (stack_access-Leaves i idx x c given))
                λ b' cpu h. Leaves-Extends apply start q regs b c b' cpu ext h)
              Both.failed)

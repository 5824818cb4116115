-- ===== src/Lifter/Values/Writes.antt =====
-- What the stores to the definitions of an instruction do when the emitted code runs.
use llvm_bleach.Base.{
  ℕ, ◌≡◌, refl, sym, ◌∙◌, ap, subst, List, [], ◌∷◌, Bool, true, false, Option-cases, inl, inr,
  or_error, Both, Both-bind, Both-imp, Both-same, if◌then◌else◌,
}
use llvm_bleach.Mctomir.Machine.{MachineOperand, RegState, find_address}
use llvm_bleach.Lifter.Generate.{untrack}
use llvm_bleach.Lifter.Registers.Effects.{Vars, set_var}
use llvm_bleach.Lifter.Values.{
  Value, Op, Builder, RegisterFile, ValueError, type_of, insert, const_reg_of, class_for,
  variable_of,
}
use llvm_bleach.Lifter.Values.Instructions.{
  constant_registers, stored_value, write_value_to_register, write_defs,
}
use llvm_bleach.Lifter.Values.Machine.{Cpu, new_value, write_register, write_registers, untrack_all}
use llvm_bleach.Lifter.Values.Run.{Frame, eval, run_snoc, store_to}
use llvm_bleach.Lifter.Values.Reads.{at_end, IsDefined}
use llvm_bleach.Lifter.Values.Casts.{Gives}

-- The tracker behind the writes.
abbrev pub tracker_after : Bool → List MachineOperand → List ℕ → List ℕ
tracker_after erase ops tracker = if erase then untrack_all ops tracker else tracker

abbrev tracker_of : Bool → ℕ → List ℕ → List ℕ
tracker_of erase r tracker = if erase then untrack r tracker else tracker

module _ {M : Type 0} (apply : ℕ → List ℕ → M → ℕ × M) (start : Frame M) where
  -- Stores were emitted between two builders, and the variables are others.
  pub record Stored (b b' : Builder) (vars : Vars) : Type 0 where
    pub same_next : b'.next ≡ b.next
    pub new_vars : (at_end apply start b').cpu ≡ record (at_end apply start b).cpu { vars = vars }
    pub same_temps : (at_end apply start b').temps ≡ (at_end apply start b).temps

  store-Stored :
      (v : Value) (a : ℕ) (b : Builder)
      → let s = at_end apply start b in
        Stored b (insert (Op.store v a) b) (store_to s.cpu.vars a (type_of v) (eval s.temps v))
  store-Stored v a b =
      let e = run_snoc apply b.ops (Op.store v a) start in
      record { same_next = refl; new_vars = ap (λ s. s.cpu) e; same_temps = ap (λ s. s.temps) e }

  Stored-trans :
      (a b c : Builder) (vars vars' : Vars) → Stored a b vars → Stored b c vars' → Stored a c vars'
  Stored-trans a b c vars vars' h k = record {
    same_next = k.same_next ∙ h.same_next;
    new_vars =
        k.new_vars ∙ ap {A = Cpu M} {B = Cpu M} (λ cpu. record cpu { vars = vars' }) h.new_vars;
    same_temps = k.same_temps ∙ h.same_temps;
  }

  Gives-Stored :
      (b c : Builder) (vars : Vars) (v : Value) (x : ℕ)
      → Stored b c vars
      → Gives apply start b v x
      → Gives apply start c v x
  Gives-Stored b c vars v x h g = record {
    is_defined = subst (λ n. IsDefined n v) (sym h.same_next) g.is_defined;
    has_value = ap (λ temps. eval temps v) h.same_temps ∙ g.has_value;
  }

  module _ (regs : RegisterFile) where
    stored_value-Both :
        (v : Value) (x reg bits a : ℕ) (consts : List (ℕ × ℕ)) (b : Builder)
        → Gives apply start b v x
        → Both
            (λ y z.
              store_to
                (at_end apply start b).cpu.vars
                a
                (type_of y)
                (eval (at_end apply start b).temps y)
              ≡ set_var (at_end apply start b).cpu.vars a z)
            (stored_value regs v reg bits consts)
            (new_value regs (type_of v) x reg bits consts (at_end apply start b).cpu.vars a)
    stored_value-Both v x reg bits a consts b g = elim (Option-cases (const_reg_of regs reg)) [
      | inl e ↦ rw (e, stored_value, new_value) (Both.gave (rw g.has_value refl))
      | inr (c, e) ↦
          rw (e, stored_value, new_value)
            (Both-same (or_error (find_address reg consts) ValueError.no_constant_register) _ _
              λ k. Both.gave refl)
    ]

    write_value_to_register-Stored :
        (v : Value) (x r : ℕ) (b : Builder)
        → Gives apply start b v x
        → Both
            (λ b' vars. Stored b b' vars × (b'.tracker ≡ b.tracker))
            (write_value_to_register regs v r b)
            (write_register regs (type_of v) x r (at_end apply start b).cpu.vars)
    unfolding write_value_to_register
    write_value_to_register-Stored v x r b g = Both-same (variable_of regs r) _ _ λ a.
        Both-same (constant_registers regs regs.const_regs) _ _ λ consts.
          Both-same (class_for regs r) _ _ λ c.
            Both-bind (stored_value-Both v x r c.bits a consts b g) λ y z e.
              Both.gave (subst (Stored b (insert (Op.store y a) b)) e (store-Stored y a b), refl)

    Stored-none : (b : Builder) → Stored b b (at_end apply start b).cpu.vars
    Stored-none b = record { same_next = refl; new_vars = refl; same_temps = refl }

    tracker_step :
        (erase : Bool) (r : ℕ) (f : RegState) (ops : List MachineOperand) (tracker : List ℕ)
        → tracker_after erase ops (tracker_of erase r tracker)
          ≡ tracker_after erase (MachineOperand.reg r f ∷ ops) tracker
    tracker_step true r f ops tracker = refl
    tracker_step false r f ops tracker = refl

    tracker_done : (erase : Bool) (tracker : List ℕ) → tracker ≡ tracker_after erase [] tracker
    tracker_done true tracker = refl
    tracker_done false tracker = refl

    pub write_defs-Stored :
        (erase : Bool) (v : Value) (x : ℕ) (ops : List MachineOperand) (b : Builder)
        → Gives apply start b v x
        → Both
            (λ b' vars. Stored b b' vars × (b'.tracker ≡ tracker_after erase ops b.tracker))
            (write_defs regs erase v ops b)
            (write_registers regs (type_of v) x ops (at_end apply start b).cpu.vars)
    unfolding write_defs
    write_defs-Stored erase v x [] b g = Both.gave (Stored-none b, tracker_done erase b.tracker)
    write_defs-Stored erase v x (MachineOperand.reg r f ∷ ops) b g =
        let b0 = record b { tracker = tracker_of erase r b.tracker } in
        Both-bind
          (write_value_to_register-Stored v x r b0
            (record { is_defined = g.is_defined; has_value = g.has_value }))
          λ b' vars h.
            let here : Stored b b' vars = record {
              same_next = h.0.same_next;
              new_vars = h.0.new_vars;
              same_temps = h.0.same_temps;
            } in
            Both-imp
              (subst
                (λ cpu.
                  Both
                    (λ c vars'.
                      Stored b' c vars' × (c.tracker ≡ tracker_after erase ops b'.tracker))
                    (write_defs regs erase v ops b')
                    (write_registers regs (type_of v) x ops cpu.vars))
                h.0.new_vars
                (write_defs-Stored erase v x ops b' (Gives-Stored b b' vars v x here g)))
              λ c vars' k. (
                Stored-trans b b' c vars vars' here k.0,
                k.1 ∙ ap (tracker_after erase ops) h.1 ∙ tracker_step erase r f ops b.tracker,
              )
    write_defs-Stored erase v x (MachineOperand.imm w ∷ ops) b g = Both.failed
    write_defs-Stored erase v x (MachineOperand.global w ∷ ops) b g = Both.failed
    write_defs-Stored erase v x (MachineOperand.block w ∷ ops) b g = Both.failed

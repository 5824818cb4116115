-- ===== src/Lifter/Values/Refines.antt =====
-- The emitted code of a run of instructions does what the instructions do, and the lifter fails where
-- they have no meaning.
use llvm_bleach.Base.{
  ℕ, ◌≡◌, refl, subst, List, [], ◌∷◌, ◌&&◌, Option, Option-cases, inl, inr, ok, ◌>>=◌, or_error,
  Both, Both-bind, Both-same, Both-if, Both-equal,
}
use llvm_bleach.Mctomir.Machine.{MachineInstr}
use llvm_bleach.Lifter.Control.{Queries, is_pc_relative}
use llvm_bleach.Lifter.Generate.{is_stack_manipulation, stack_def, track}
use llvm_bleach.Lifter.Values.{Builder, RegisterFile, ValueError}
use llvm_bleach.Lifter.Values.Instructions.{generate_straight, generate_all, is_missing}
use llvm_bleach.Lifter.Values.Exec.{exec_straight, exec_all}
use llvm_bleach.Lifter.Values.Run.{Frame}
use llvm_bleach.Lifter.Values.Agree.{core_of, generate_plain-Agrees}
use llvm_bleach.Lifter.Values.Slots.{generate_stack_pointer_modification-Agrees}
use llvm_bleach.Lifter.Values.Access.{generate_load_store_from_stack-Agrees}

module _ {M : Type 0} (apply : ℕ → List ℕ → M → ℕ × M) (start : Frame M) (q : Queries)
    (regs : RegisterFile) where
  generate_straight-Agrees :
      (addr : Option ℕ) (i : MachineInstr) (b : Builder)
      → Both
          (λ b' c. core_of apply start b' ≡ c)
          (generate_straight q regs addr i b)
          (exec_straight q regs apply addr i (core_of apply start b))
  unfolding generate_straight exec_straight
  generate_straight-Agrees addr i b =
      Both-if (is_stack_manipulation q i b.tracker)
        (generate_load_store_from_stack-Agrees apply start q regs i b)
        (Both-if (is_pc_relative q i && is_missing addr) Both.failed (
          Both-same (or_error (regs.functions i.opcode) ValueError.no_function) _ _ λ ft.
            elim (Option-cases (stack_def q i b.tracker (q.defs i))) [
              | inl e ↦ rw e (generate_plain-Agrees apply start q regs addr i b)
              | inr (dst, e) ↦ rw e (
                  generate_stack_pointer_modification-Agrees apply start q regs i
                    (record b { tracker = track dst b.tracker }))
            ]))

  generate_all-Agrees :
      (is : List (Option ℕ × MachineInstr)) (b : Builder)
      → Both
          (λ b' c. core_of apply start b' ≡ c)
          (generate_all q regs is b)
          (exec_all q regs apply is (core_of apply start b))
  unfolding generate_all exec_all
  generate_all-Agrees [] b = Both.gave refl
  generate_all-Agrees ((addr, i) ∷ is) b = Both-bind (generate_straight-Agrees addr i b) λ b' c e.
      subst
        (λ k.
          Both (λ b' c. core_of apply start b' ≡ c) (generate_all q regs is b')
            (exec_all q regs apply is k))
        e (generate_all-Agrees is b')

  -- Running the code that is emitted for a run of instructions gives the machine that the
  -- instructions give, with the same registers known to hold stack pointers; and the lifter fails on
  -- the run of instructions exactly where they have no meaning, with the same error.
  pub generate_all-exec_all :
      (is : List (Option ℕ × MachineInstr)) (b : Builder)
      → (generate_all q regs is b >>= λ b'. ok (core_of apply start b'))
        ≡ exec_all q regs apply is (core_of apply start b)
  generate_all-exec_all is b = Both-equal (core_of apply start) (generate_all-Agrees is b)

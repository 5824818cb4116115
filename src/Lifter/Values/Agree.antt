-- ===== src/Lifter/Values/Agree.antt =====
-- The emitted code does what the machine instructions do.
use llvm_bleach.Base.{
  ℕ, ◌%◌, ◌^◌, not, ◌≡◌, refl, ◌∙◌, ap, subst, arith, List, [], ◌∷◌, ◌++◌, Bool, true, false,
  Option, none, some, ok, ◌>>=◌, or_error, filter_if, Both, Both-bind, Both-same, Both-map,
}
use llvm_bleach.Mctomir.Machine.{MachineInstr}
use llvm_bleach.Lifter.Registers.Effects.{set_var}
use llvm_bleach.Lifter.Control.{Queries, is_mbb, is_pc_relative}
use llvm_bleach.Lifter.Generate.{is_explicit_use}
use llvm_bleach.Lifter.Values.{
  Value, Op, Builder, RegisterFile, FunctionType, ValueError, all_non_null,
}
use llvm_bleach.Lifter.Values.Instructions.{
  write_defs, create_call, with_address, generate_plain, generate_condition,
}
use llvm_bleach.Lifter.Values.Machine.{Cpu, Word, write_registers, with_pc}
use llvm_bleach.Lifter.Values.Exec.{Core, apply_and_write, exec_plain, exec_condition, values_of}
use llvm_bleach.Lifter.Values.Run.{Frame, step, run_snoc}
use llvm_bleach.Lifter.Values.Reads.{
  at_end, Extends, Extends-trans, MeansOption, mod_twice, MeansOption, mod_twice,
}
use llvm_bleach.Lifter.Values.Operands.{
  IsReadAll, IsRead-constant, operands_to_values-IsReadAll, IsRead-constant,
}
use llvm_bleach.Lifter.Values.Casts.{Gives, GivesAll, GivesAll-map, cast_args-GivesAll}
use llvm_bleach.Lifter.Values.Writes.{Stored, tracker_after, write_defs-Stored}

module _ {M : Type 0} (apply : ℕ → List ℕ → M → ℕ × M) (start : Frame M) where
  -- The machine where the emitted code ends.
  abbrev pub core_of : Builder → Core M
  core_of b = record { tracker = b.tracker; cpu = (at_end apply start b).cpu }

  IsReadAll-append :
      (b : Builder) (vs : List (Option Value)) (ws : List (Option Word)) (v : Option Value)
      (w : Option Word)
      → IsReadAll apply start b vs ws
      → MeansOption apply start b v w
      → IsReadAll apply start b (vs ++ v ∷ []) (ws ++ w ∷ [])
  IsReadAll-append b [] [] v w h m = (m, tt)
  IsReadAll-append b (x ∷ vs) (y ∷ ws) v w h m = (h.0, IsReadAll-append b vs ws v w h.1 m)
  IsReadAll-append b [] (y ∷ ws) v w h m = elim h [ ]
  IsReadAll-append b (x ∷ vs) [] v w h m = elim h [ ]

  with_address-IsReadAll :
      (pcrel : Bool) (addr : Option ℕ) (b : Builder) (vs : List (Option Value))
      (ws : List (Option Word))
      → IsReadAll apply start b vs ws
      → IsReadAll apply start b (with_address pcrel addr vs) (with_pc pcrel addr ws)
  with_address-IsReadAll true (some a) b vs ws h =
      IsReadAll-append b vs ws _ _ h
        (IsRead-constant apply start b (a % 2 ^ 64) (mod_twice a (2 ^ 64))).1
  with_address-IsReadAll true none b vs ws h = h
  with_address-IsReadAll false addr b vs ws h = h

  pub all_non_null-GivesAll :
      (b : Builder) (vs : List (Option Value)) (ws : List (Option Word))
      → IsReadAll apply start b vs ws
      → Both (GivesAll apply start b) (all_non_null vs) (values_of ws)
  all_non_null-GivesAll b [] [] h = Both.gave tt
  all_non_null-GivesAll b (none ∷ vs) (none ∷ ws) h = Both.failed
  all_non_null-GivesAll b (some v ∷ vs) (some w ∷ ws) h =
      Both-bind (all_non_null-GivesAll b vs ws h.1)
        λ xs ys k. Both.gave (record { is_defined = h.0.is_defined; has_value = h.0.has_value }, k)
  all_non_null-GivesAll b (none ∷ vs) (some w ∷ ws) h = elim h.0 [ ]
  all_non_null-GivesAll b (some v ∷ vs) (none ∷ ws) h = elim h.0 [ ]
  all_non_null-GivesAll b [] (y ∷ ws) h = elim h [ ]
  all_non_null-GivesAll b (x ∷ vs) [] h = elim h [ ]

  -- Behind a call of a function with some numbers.
  abbrev behind_call : ℕ → ℕ → List ℕ → Frame M → Frame M
  behind_call t opcode xs s =
      let r = apply opcode xs s.cpu.memory in
      record { temps = set_var s.temps t r.0; cpu = record s.cpu { memory = r.1 } }

  create_call-behind_call :
      (opcode : ℕ) (ft : FunctionType) (args : List Value) (xs : List ℕ) (b : Builder)
      → GivesAll apply start b args xs
      → at_end apply start (create_call opcode ft args b).1
        ≡ behind_call b.next opcode xs (at_end apply start b)
  create_call-behind_call opcode ft args xs b h =
      let op = Op.call b.next opcode args ft.ret in
      let called : step apply op (at_end apply start b)
          ≡ behind_call b.next opcode xs (at_end apply start b) =
        rw (GivesAll-map apply start b args xs h) refl in
      run_snoc apply b.ops op start ∙ called

  create_call-Gives :
      (opcode : ℕ) (ft : FunctionType) (args : List Value) (xs : List ℕ) (b : Builder)
      → GivesAll apply start b args xs
      → let call = create_call opcode ft args b in
        Gives apply start call.1 call.0 (apply opcode xs (at_end apply start b).cpu.memory).0
  create_call-Gives opcode ft args xs b h = record {
    is_defined = omega arith;
    has_value =
        ap (λ s. s.temps b.next) (create_call-behind_call opcode ft args xs b h) ∙ ground arith;
  }

  module _ (q : Queries) (regs : RegisterFile) where
    -- What holds behind a call and the writes of its result.
    abbrev IsCalled : Bool → MachineInstr → Builder → Builder → Cpu M → Type 0
    IsCalled erase i b b' cpu =
        ((at_end apply start b').cpu ≡ cpu)
        × (b'.tracker ≡ tracker_after erase (q.defs i) b.tracker)

    -- The function is called with numbers that the machine has, and its result is written.
    call-Agrees :
        (erase : Bool) (i : MachineInstr) (ft : FunctionType) (args : List Value) (xs : List ℕ)
        (b : Builder)
        → GivesAll apply start b args xs
        → let call = create_call i.opcode ft args b in
          Both
            (IsCalled erase i b)
            (write_defs regs erase call.0 (q.defs i) call.1)
            (apply_and_write q regs apply ft.ret i xs (at_end apply start b).cpu)
    call-Agrees erase i ft args xs b h =
        let before = at_end apply start b in
        let r = apply i.opcode xs before.cpu.memory in
        let call = create_call i.opcode ft args b in
        let e = create_call-behind_call i.opcode ft args xs b h in
        let given = create_call-Gives i.opcode ft args xs b h in
        Both-map (λ vars. record before.cpu { vars = vars; memory = r.1 })
          (subst
            (λ s.
              Both
                (λ b' vars.
                  Stored apply start call.1 b' vars
                  × (b'.tracker ≡ tracker_after erase (q.defs i) b.tracker))
                (write_defs regs erase call.0 (q.defs i) call.1)
                (write_registers regs ft.ret r.0 (q.defs i) s.cpu.vars))
            e (write_defs-Stored apply start regs erase call.0 r.0 (q.defs i) call.1 given))
          λ b' vars k.
            (k.0.new_vars ∙ ap {A = Frame M} {B = Cpu M} (λ s. record s.cpu { vars = vars }) e, k.1)

    pub call_behind-Agrees :
        (erase : Bool) (i : MachineInstr) (ft : FunctionType) (args : List Value) (xs : List ℕ)
        (b c : Builder)
        → Extends apply start b c
        → GivesAll apply start c args xs
        → let call = create_call i.opcode ft args c in
          Both
            (λ b' c'. core_of b' ≡ c')
            (write_defs regs erase call.0 (q.defs i) call.1)
            (do
              cpu ← apply_and_write q regs apply ft.ret i xs (at_end apply start b).cpu
              ok (record { tracker = tracker_after erase (q.defs i) b.tracker; cpu = cpu }))
    call_behind-Agrees erase i ft args xs b c ext h =
        let tracker = tracker_after erase (q.defs i) b.tracker in
        let call = create_call i.opcode ft args c in
        let agrees =
          subst
            (λ cpu.
              Both (IsCalled erase i c) (write_defs regs erase call.0 (q.defs i) call.1)
                (apply_and_write q regs apply ft.ret i xs cpu))
            ext.same_cpu (call-Agrees erase i ft args xs c h) in
        Both-map (λ cpu. record { tracker = tracker; cpu = cpu }) agrees
          λ b' cpu l. rw (l.0, l.1, ext.same_tracker) refl

    pub generate_plain-Agrees :
        (addr : Option ℕ) (i : MachineInstr) (b : Builder)
        → Both
            (λ b' c. core_of b' ≡ c)
            (generate_plain q regs addr i b)
            (exec_plain q regs apply addr i (core_of b))
    unfolding generate_plain
    generate_plain-Agrees addr i b =
        Both-same (or_error (regs.functions i.opcode) ValueError.no_function) _ _ λ ft.
          Both-bind
            (operands_to_values-IsReadAll apply start q regs
              (filter_if (is_explicit_use q) (q.uses i)) b)
            λ args ws h.
              Both-bind
                (cast_args-GivesAll apply start _ _ ft.params args.1
                  (with_address-IsReadAll (is_pc_relative q i) addr args.1 args.0 ws h.1))
                λ casted xs k.
                  call_behind-Agrees true i ft casted.0 xs b casted.1
                    (Extends-trans apply start b args.1 casted.1 h.0 k.0) k.1

    -- The condition is what the function returns, and nothing but the memory is changed.
    abbrev IsCondition : MachineInstr → List ℕ → Value × Builder → Builder → Cpu M → Type 0
    IsCondition i xs r b cpu =
        let x = apply i.opcode xs cpu.memory in
        Gives apply start r.1 r.0 x.0
        × (core_of r.1 ≡ record { tracker = b.tracker; cpu = record cpu { memory = x.1 } })

    pub generate_condition-Agrees :
        (i : MachineInstr) (b : Builder)
        → Both
            (λ r c.
              Gives apply start r.1 r.0 c.0
              × (core_of r.1 ≡ record { tracker = b.tracker; cpu = c.1 }))
            (generate_condition q regs i b)
            (exec_condition q regs apply i (at_end apply start b).cpu)
    unfolding generate_condition
    generate_condition-Agrees i b =
        Both-same (or_error (regs.functions i.opcode) ValueError.no_function) _ _ λ ft.
          Both-bind
            (operands_to_values-IsReadAll apply start q regs
              (filter_if (λ op. not (is_mbb op)) (q.uses i)) b)
            λ args ws h. Both-bind (all_non_null-GivesAll args.1 args.0 ws h.1) λ vs xs k.
              let called : core_of (create_call i.opcode ft vs args.1).1 ≡ record {
                tracker = args.1.tracker;
                cpu = (behind_call args.1.next i.opcode xs (at_end apply start args.1)).cpu;
              } =
                rw (create_call-behind_call i.opcode ft vs xs args.1 k) refl in
              Both.gave (
                subst (IsCondition i xs (create_call i.opcode ft vs args.1) b) h.0.same_cpu
                  (create_call-Gives i.opcode ft vs xs args.1 k, called ∙ rw h.0.same_tracker refl))

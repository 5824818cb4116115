-- ===== src/Lifter/Generate/Laws.antt =====
-- An instruction that is neither a branch nor a return adds plain code to the current block.
use mathlib.Core.List.{append_assoc, append-nil}
use llvm_bleach.Base.{
  ℕ, ◌≡◌, refl, sym, ap, ◌∙◌, subst, inl, inr, Bool, true, false, not, List, [], ◌∷◌, ◌++◌, Option,
  none, some, Result, ok, err, ◌>>=◌, or_error, find_if, filter_if, length, All, All-append,
  Bool-cases, Ensures, Ensures-bind, Ensures-any, ◌==◌,
}
use llvm_bleach.Base.Int.{ℤ}
use llvm_bleach.Mctomir.Machine.{MachineOperand, MachineInstr}
use llvm_bleach.Lifter.Control.{
  Queries, Ir, IrBlock, Emit, Place, LiftError, emit, is_return, is_indirect_branch, is_branch,
  is_call, is_global, operands_to_values,
}
use llvm_bleach.Lifter.Generate.{
  write_first, write_all, write_untracked, check, generate_load_store_from_stack,
  generate_stack_pointer_modification, generate_plain, generate_other, generate_instruction,
  is_stack_manipulation, stack_def, stack_args, first_imm, stack_access, first_value, stack_offset,
  callee_of, is_explicit_use, track, untrack,
}

abbrev pub is_terminator : Ir → Bool
is_terminator Ir.ret_void = true
is_terminator (Ir.br b) = true
is_terminator (Ir.cond_br t f) = true
is_terminator _ = false

-- The code is in the given block, and is no terminator.
abbrev pub PlainIn : IrBlock → List (IrBlock × Ir) → Type 0
PlainIn b code = All (λ e. (e.0 ≡ b) × (is_terminator e.1 ≡ false)) code

-- `s'` has some more code than `s`, all of it plain and in the current block.
pub record Extends (s s' : Emit) : Type 0 where
  pub body : List (IrBlock × Ir)
  pub out : s'.out ≡ s.out ++ body
  pub here : s'.here ≡ s.here
  pub plain : PlainIn s.here body

pub Extends-same : (s : Emit) (t : List ℕ) → Extends s (record s { tracker = t })
Extends-same s t = record { body = []; out = sym (append-nil s.out); here = refl; plain = tt }

pub Extends-emit : (s : Emit) (ir : Ir) → is_terminator ir ≡ false → Extends s (emit ir s)
Extends-emit s ir h = record {
  body = (s.here, ir) ∷ [];
  out = refl;
  here = refl;
  plain = ((refl, h), tt);
}

pub Extends-trans : (s s' s'' : Emit) → Extends s s' → Extends s' s'' → Extends s s''
Extends-trans s s' s'' e f = record {
  body = e.body ++ f.body;
  out = f.out ∙ ap (λ o. o ++ f.body) e.out ∙ append_assoc s.out e.body f.body;
  here = f.here ∙ e.here;
  plain = All-append _ e.body f.body e.plain (subst (λ b. PlainIn b f.body) e.here f.plain);
}

-- What follows an extension extends.
pub Extends-then :
    (s s' : Emit) (m : Result LiftError Emit)
    → Extends s s'
    → Ensures (Extends s') m
    → Ensures (Extends s) m
Extends-then s s' (ok s'') e h = Extends-trans s s' s'' e h
Extends-then s s' (err x) e h = tt

write_first-Extends :
    (ops : List MachineOperand) (s : Emit) → Ensures (Extends s) (write_first ops s)
write_first-Extends [] s = Extends-same s s.tracker
write_first-Extends (MachineOperand.reg r f ∷ ops) s = Extends-emit s (Ir.write r) refl
write_first-Extends (MachineOperand.imm v ∷ ops) s = tt
write_first-Extends (MachineOperand.global v ∷ ops) s = tt
write_first-Extends (MachineOperand.block v ∷ ops) s = tt

write_all-Extends : (ops : List MachineOperand) (s : Emit) → Ensures (Extends s) (write_all ops s)
write_all-Extends [] s = Extends-same s s.tracker
write_all-Extends (MachineOperand.reg r f ∷ ops) s =
    Extends-then s (emit (Ir.write r) s) (write_all ops (emit (Ir.write r) s))
      (Extends-emit s (Ir.write r) refl) (write_all-Extends ops (emit (Ir.write r) s))
write_all-Extends (MachineOperand.imm v ∷ ops) s = tt
write_all-Extends (MachineOperand.global v ∷ ops) s = tt
write_all-Extends (MachineOperand.block v ∷ ops) s = tt

write_untracked-Extends :
    (ops : List MachineOperand) (s : Emit) → Ensures (Extends s) (write_untracked ops s)
write_untracked-Extends [] s = Extends-same s s.tracker
write_untracked-Extends (MachineOperand.reg r f ∷ ops) s =
    let s1 : Emit = record s { tracker = untrack r s.tracker } in
    let s2 = emit (Ir.write r) s1 in
    Extends-then s s2 (write_untracked ops s2)
      (Extends-trans s s1 s2 (Extends-same s (untrack r s.tracker))
        (Extends-emit s1 (Ir.write r) refl))
      (write_untracked-Extends ops s2)
write_untracked-Extends (MachineOperand.imm v ∷ ops) s = tt
write_untracked-Extends (MachineOperand.global v ∷ ops) s = tt
write_untracked-Extends (MachineOperand.block v ∷ ops) s = tt

-- A first step of which only the value is used.
pub bind_any {ℓ} :
    {A : Type ℓ} (s : Emit) (m : Result LiftError A) (f : A → Result LiftError Emit)
    → ((a : A) → Ensures (Extends s) (f a))
    → Ensures (Extends s) (m >>= f)
bind_any s m f h = Ensures-bind (λ _. Unit {0}) (Extends s) m f (Ensures-any m) (λ a u. h a)

pub bind_Extends :
    (s : Emit) (m : Result LiftError Emit) (f : Emit → Result LiftError Emit)
    → Ensures (Extends s) m
    → ((s' : Emit) → Ensures (Extends s') (f s'))
    → Ensures (Extends s) (m >>= f)
bind_Extends s m f h k =
    Ensures-bind (Extends s) (Extends s) m f h (λ s' e. Extends-then s s' (f s') e (k s'))

module _ (q : Queries) where
  access-Extends :
      (i : MachineInstr) (offset : ℤ) (s : Emit) → Ensures (Extends s) (stack_access q i offset s)
  unfolding stack_access
  access-Extends i offset s = elim (Bool-cases (q.may_load i.opcode)) [
    | inl e ↦ rw e (
        bind_any s (check (not (q.may_store i.opcode)) LiftError.load_and_store) _ (λ u.
          bind_any s (or_error (q.num_params i.opcode) LiftError.no_function) _
            (λ params. Extends-emit s (Ir.stack_load i.opcode offset) refl)))
    | inr e ↦ rw e (
        bind_any s (check (length (q.uses i) == 3) LiftError.assertion) _ (λ u.
          bind_any s (first_value (q.uses i)) _
            (λ value. Extends-emit s (Ir.stack_store value offset) refl)))
  ]

  load_store-Extends :
      (i : MachineInstr) (s : Emit) → Ensures (Extends s) (generate_load_store_from_stack q i s)
  unfolding generate_load_store_from_stack
  load_store-Extends i s =
      bind_any s (or_error q.stack_pointer_bytes LiftError.no_stack_pointer) _ (λ bytes.
        bind_Extends s _ _ (access-Extends i (stack_offset bytes (q.uses i)) s)
          (write_first-Extends (q.defs i)))

  modification-Extends :
      (i : MachineInstr) (s : Emit)
      → Ensures (Extends s) (generate_stack_pointer_modification q i s)
  unfolding generate_stack_pointer_modification
  modification-Extends i s =
      bind_any s (or_error (first_imm (q.uses i)) LiftError.no_immediate) _ (λ v.
        bind_any s (stack_args v (q.uses i)) _ (λ args.
          Extends-then s (emit (Ir.instr i.opcode args) s) _
            (Extends-emit s (Ir.instr i.opcode args) refl) (write_all-Extends (q.defs i) _)))

  plain-Extends :
      (addr : Option ℕ) (i : MachineInstr) (s : Emit)
      → Ensures (Extends s) (generate_plain q addr i s)
  unfolding generate_plain
  plain-Extends addr i s =
      bind_any s (or_error (q.num_params i.opcode) LiftError.no_function) _ (λ params.
        bind_any s (operands_to_values (filter_if (is_explicit_use q) (q.uses i))) _ (λ args.
          Extends-then s _ _ (Extends-emit s _ refl) (write_untracked-Extends (q.defs i) _)))

  other-Extends :
      (addr : Option ℕ) (i : MachineInstr) (s : Emit)
      → Ensures (Extends s) (generate_other q addr i s)
  unfolding generate_other
  other-Extends addr i s = bind_any s _ _ (λ known.
      bind_any s (or_error (q.num_params i.opcode) LiftError.no_function) _
        (λ params. go (stack_def q i s.tracker (q.defs i))))
    where
      go :
          (o : Option ℕ)
          → Ensures (Extends s) (elim o [
            | some r ↦
                generate_stack_pointer_modification q i (record s { tracker = track r s.tracker })
            | none ↦ generate_plain q addr i s
          ])
      go none = plain-Extends addr i s
      go (some r) =
          Extends-then s (record s { tracker = track r s.tracker }) _
            (Extends-same s (track r s.tracker))
            (modification-Extends i (record s { tracker = track r s.tracker }))

  call-Extends :
      (i : MachineInstr) (s : Emit)
      → Ensures
          (Extends s)
          (callee_of (find_if is_global i.operands) >>= λ f. ok (emit (Ir.lifted_call f) s))
  call-Extends i s =
      bind_any s (callee_of (find_if is_global i.operands)) _
        (λ f. Extends-emit s (Ir.lifted_call f) refl)

  pub straight-Extends :
      (p : Place) (addr : Option ℕ) (i : MachineInstr) (s : Emit)
      → is_return q i ≡ false
      → is_indirect_branch q i ≡ false
      → is_branch q i ≡ false
      → Ensures (Extends s) (generate_instruction q p addr i s)
  unfolding generate_instruction
  straight-Extends p addr i s r d b =
      rw (r, d, b)
        (elim (Bool-cases (is_call q i)) [
          | inl e ↦ rw e (call-Extends i s)
          | inr e ↦ rw e (elim (Bool-cases (is_stack_manipulation q i s.tracker)) [
            | inl m ↦ rw m (load_store-Extends i s)
            | inr m ↦ rw m (other-Extends addr i s)
          ])
        ])

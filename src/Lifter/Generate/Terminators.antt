-- ===== src/Lifter/Generate/Terminators.antt =====
-- A lifted block ends in one terminator, and has none before it.
use mathlib.Core.List.{append_assoc}
use llvm_bleach.Base.{
  ℕ, ◌≡◌, ◌⊎◌, refl, sym, ap, ◌∙◌, subst, inl, inr, true, false, ◌&&◌, ◌||◌, not, List, [], ◌∷◌,
  ◌++◌, Option, none, some, Result, ok, err, ◌>>=◌, or_error, find_if, filter_if, All-append, arith,
  Bool-cases, Ensures, Ensures-bind, Ensures-any,
}
use llvm_bleach.Mctomir.Machine.{MachineInstr}
use llvm_bleach.Lifter.Control.{
  Queries, Ir, IrBlock, Emit, Place, LiftError, emit, is_return, is_indirect_branch, is_branch,
  is_call, generate_jump, generate_branch, operands_to_values, mbb_operand, is_mbb,
  get_if_true_block, get_if_false_block, behind_conditional,
}
use llvm_bleach.Lifter.Generate.{
  generate_instruction, fill_insts, fill_ir_for_bb, close_block, last_of,
}
use llvm_bleach.Lifter.Generate.Laws.{
  is_terminator, PlainIn, Extends, Extends-same, Extends-emit, Extends-trans, straight-Extends,
}

-- All code that `s'` has more than `s` is in one block: plain code, and then one terminator.
pub record EndsOnce (b : IrBlock) (s s' : Emit) : Type 0 where
  pub body : List (IrBlock × Ir)
  pub last : Ir
  pub out : s'.out ≡ s.out ++ (body ++ (b, last) ∷ [])
  pub plain : PlainIn b body
  pub terminates : is_terminator last ≡ true

finish :
    (s s' s'' : Emit) (t : Ir)
    → Extends s s'
    → is_terminator t ≡ true
    → s''.out ≡ s'.out ++ (s'.here, t) ∷ []
    → EndsOnce s.here s s''
finish s s' s'' t e h o = record {
  body = e.body;
  last = t;
  out =
      o
      ∙ ap (λ b. s'.out ++ (b, t) ∷ []) e.here
      ∙ ap (λ c. c ++ (s.here, t) ∷ []) e.out
      ∙ append_assoc s.out e.body ((s.here, t) ∷ []);
  plain = e.plain;
  terminates = h;
}

EndsOnce-then :
    (s s' : Emit) (m : Result LiftError Emit)
    → Extends s s'
    → Ensures (EndsOnce s'.here s') m
    → Ensures (EndsOnce s.here s) m
EndsOnce-then s s' (err x) e h = tt
EndsOnce-then s s' (ok s'') e h = record {
  body = e.body ++ h.body;
  last = h.last;
  out =
      h.out
      ∙ ap (λ c. c ++ (h.body ++ (s'.here, h.last) ∷ [])) e.out
      ∙ append_assoc s.out e.body (h.body ++ (s'.here, h.last) ∷ [])
      ∙ ap (λ c. s.out ++ c) (sym (append_assoc e.body h.body ((s'.here, h.last) ∷ [])))
      ∙ ap (λ b. s.out ++ ((e.body ++ h.body) ++ (b, h.last) ∷ [])) e.here;
  plain = All-append _ e.body h.body e.plain (subst (λ b. PlainIn b h.body) e.here h.plain);
  terminates = h.terminates;
}

module _ (q : Queries) where
  -- No branch and no return.
  abbrev pub IsStraight : MachineInstr → Type 0
  IsStraight i =
      (is_return q i ≡ false)
      × (is_indirect_branch q i ≡ false)
      × (is_branch q i ≡ false)
      × (q.flag_conditional i.opcode ≡ false)

  -- All instructions but the last.
  abbrev pub StraightBefore : List (Option ℕ × MachineInstr) → Type 0
  StraightBefore [] = Unit
  StraightBefore (x ∷ []) = Unit
  StraightBefore (x ∷ y ∷ is) = IsStraight x.1 × StraightBefore (y ∷ is)

  -- Behind the last instruction the block has its terminator, or has none and is to be closed.
  abbrev Left : MachineInstr → Emit → Emit → Type 0
  Left last s s' =
      ((is_branch q last || is_return q last ≡ true) × EndsOnce s.here s s')
      ⊎ ((is_branch q last ≡ false) × (is_return q last ≡ false) × Extends s s')

  abbrev place : Option ℕ → Option MachineInstr → Place
  place next_mbb prev = record { next_mbb = next_mbb; prev = prev; following = none }

  jump-EndsOnce :
      (next_mbb : Option ℕ) (prev : Option MachineInstr) (i : MachineInstr) (s : Emit)
      → behind_conditional q prev ≡ false
      → Ensures (EndsOnce s.here s) (generate_jump q (place next_mbb prev) i s)
  unfolding generate_jump
  jump-EndsOnce next_mbb prev i s h = rw h (
      Ensures-bind (λ _. Unit {0}) (EndsOnce s.here s) (mbb_operand (find_if is_mbb i.operands)) _
        (Ensures-any _)
        (λ b u. finish s s (emit (Ir.br b) s) (Ir.br b) (Extends-same s s.tracker) refl refl))

  branch-EndsOnce :
      (next_mbb : Option ℕ) (prev : Option MachineInstr) (i : MachineInstr) (s : Emit)
      → Ensures (EndsOnce s.here s) (generate_branch q (place next_mbb prev) i s)
  unfolding generate_branch get_if_false_block
  branch-EndsOnce next_mbb prev i s =
      Ensures-bind (λ _. Unit {0}) (EndsOnce s.here s)
        (or_error (q.num_params i.opcode) LiftError.no_function) _ (Ensures-any _)
        (λ params u.
          Ensures-bind (λ _. Unit {0}) (EndsOnce s.here s)
            (operands_to_values (filter_if (λ op. not (is_mbb op)) (q.uses i))) _ (Ensures-any _)
            (λ args u.
              Ensures-bind (λ _. Unit {0}) (EndsOnce s.here s) (get_if_true_block i) _
                (Ensures-any _)
                (λ if_true u.
                  go next_mbb (emit (Ir.instr i.opcode args) s) if_true
                    (Extends-emit s (Ir.instr i.opcode args) refl))))
    where
      go :
          (n : Option ℕ) (s1 : Emit) (if_true : IrBlock)
          → Extends s s1
          → Ensures (EndsOnce s.here s) (
              get_if_false_block q (place n prev) s1 >>= λ r.
              ok (record (emit (Ir.cond_br if_true r.0) r.1) { here = r.0 }))
      go none s1 if_true e = tt
      go (some b) s1 if_true e = finish s s1 _ (Ir.cond_br if_true (IrBlock.of_mbb b)) e refl refl

  last-Left :
      (next_mbb : Option ℕ) (prev : Option MachineInstr) (addr : Option ℕ) (i : MachineInstr)
      (s : Emit)
      → behind_conditional q prev ≡ false
      → is_indirect_branch q i ≡ false
      → Ensures (Left i s) (generate_instruction q (place next_mbb prev) addr i s)
  unfolding generate_instruction
  last-Left next_mbb prev addr i s h d = elim (Bool-cases (is_return q i)) [
    | inl r ↦ rw r (
        inl (
          ground arith,
          finish s s (emit Ir.ret_void s) Ir.ret_void (Extends-same s s.tracker) refl refl,
        ))
    | inr r ↦ elim (Bool-cases (is_branch q i)) [
      | inr b ↦
          more (generate_instruction q (place next_mbb prev) addr i s) (λ s' e. inr (b, r, e))
            (straight-Extends q (place next_mbb prev) addr i s r d b)
      | inl b ↦ elim (Bool-cases (q.flag_conditional i.opcode)) [
        | inl c ↦
            rw (r, d, b, c)
              (more (generate_branch q (place next_mbb prev) i s) (λ s' e. inl (ground arith, e))
                (branch-EndsOnce next_mbb prev i s))
        | inr c ↦
            rw (r, d, b, c)
              (more (generate_jump q (place next_mbb prev) i s) (λ s' e. inl (ground arith, e))
                (jump-EndsOnce next_mbb prev i s h))
      ]
    ]
  ]
    where
      more :
          {P Q : Emit → Type 0} (m : Result LiftError Emit)
          → ((s' : Emit) → P s' → Q s')
          → Ensures P m
          → Ensures Q m
      more (ok s') f p = f s' p
      more (err x) f p = tt

  fill_insts-Left :
      (next_mbb : Option ℕ) (prev : Option MachineInstr) (a : Option ℕ) (i : MachineInstr)
      (is : List (Option ℕ × MachineInstr)) (s : Emit)
      → behind_conditional q prev ≡ false
      → StraightBefore ((a, i) ∷ is)
      → is_indirect_branch q (last_of i is) ≡ false
      → Ensures (Left (last_of i is) s) (fill_insts q next_mbb prev ((a, i) ∷ is) s)
  unfolding fill_insts
  fill_insts-Left next_mbb prev a i [] s h k d = last-Left next_mbb prev a i s h d
  fill_insts-Left next_mbb prev a i ((b, j) ∷ is) s h k d =
      Ensures-bind (Extends s) (Left (last_of j is) s) _ _
        (straight-Extends q _ a i s k.0.0 k.0.1 k.0.2)
        (λ s1 e. Left-then s s1 _ e (fill_insts-Left next_mbb (some i) b j is s1 k.0.3 k.1 d))
    where
      Left-then :
          (s s' : Emit) (m : Result LiftError Emit)
          → Extends s s'
          → Ensures (Left (last_of j is) s') m
          → Ensures (Left (last_of j is) s) m
      Left-then s s' (err x) e h = tt
      Left-then s s' (ok s2) e (inl (t, h)) = inl (t, EndsOnce-then s s' (ok s2) e h)
      Left-then s s' (ok s2) e (inr (b, r, h)) = inr (b, r, Extends-trans s s' s2 e h)

  close-EndsOnce :
      (next_mbb : Option ℕ) (last : MachineInstr) (s s' : Emit)
      → Left last s s'
      → Ensures (EndsOnce s.here s) (close_block q next_mbb last s')
  unfolding close_block
  close-EndsOnce next_mbb last s s' (inl (t, e)) =
      let no : (not (is_branch q last) && not (is_return q last)) ≡ false = ground arith in rw no e
  close-EndsOnce next_mbb last s s' (inr (b, r, e)) =
      rw (b, r)
        (elim (Bool-cases (is_call q last)) [
          | inl c ↦ rw c (finish s s' (emit Ir.ret_void s') Ir.ret_void e refl refl)
          | inr c ↦ rw c (go next_mbb)
        ])
    where
      go :
          (n : Option ℕ)
          → Ensures (EndsOnce s.here s) (elim n [
            | some b ↦ ok (emit (Ir.br (IrBlock.of_mbb b)) s')
            | none ↦ err LiftError.assertion
          ])
      go none = tt
      go (some b) = finish s s' _ (Ir.br (IrBlock.of_mbb b)) e refl refl

  -- A machine block whose instructions are no branches or returns, except perhaps the last one, which
  -- is no indirect branch, is lifted into code of one block that has one terminator, at its end; or an
  -- error is reported.
  pub fill_ir_for_bb-EndsOnce :
      (mbb : ℕ) (next_mbb : Option ℕ) (a : Option ℕ) (i : MachineInstr)
      (is : List (Option ℕ × MachineInstr)) (s : Emit)
      → StraightBefore ((a, i) ∷ is)
      → is_indirect_branch q (last_of i is) ≡ false
      → Ensures (EndsOnce (IrBlock.of_mbb mbb) s) (fill_ir_for_bb q mbb next_mbb ((a, i) ∷ is) s)
  unfolding fill_ir_for_bb
  fill_ir_for_bb-EndsOnce mbb next_mbb a i is s k d =
      let s0 : Emit = record s { here = IrBlock.of_mbb mbb } in
      same (fill_insts q next_mbb none ((a, i) ∷ is) s0 >>= close_block q next_mbb (last_of i is)) (
        Ensures-bind (Left (last_of i is) s0) (EndsOnce (IrBlock.of_mbb mbb) s0) _ _
          (fill_insts-Left next_mbb none a i is s0 refl k d)
          (λ s' l. close-EndsOnce next_mbb (last_of i is) s0 s' l))
    where
      same :
          (m : Result LiftError Emit)
          → Ensures (EndsOnce (IrBlock.of_mbb mbb) (record s { here = IrBlock.of_mbb mbb })) m
          → Ensures (EndsOnce (IrBlock.of_mbb mbb) s) m
      same (err x) h = tt
      same (ok s') h = record {
        body = h.body;
        last = h.last;
        out = h.out;
        plain = h.plain;
        terminates = h.terminates;
      }

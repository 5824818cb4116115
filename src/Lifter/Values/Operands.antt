-- ===== src/Lifter/Values/Operands.antt =====
-- What the values of operands are when the emitted code runs.
use llvm_bleach.Base.{
  ℕ, ◌%◌, ◌^◌, ◌≡◌, refl, List, [], ◌∷◌, Bool, true, false, Option, none, some, subst,
  if◌then◌else◌, Result, ok, err, ◌>>=◌, Both, Both-bind, Both-same,
}
use llvm_bleach.Mctomir.Machine.{MachineOperand, RegState}
use llvm_bleach.Lifter.Control.{Queries}
use llvm_bleach.Lifter.Values.{
  Value, Op, Builder, RegisterFile, ConstantReg, ValueError, word, const_reg_of, class_for,
  variable_of, load_register, present, operand_to_value, operands_to_values,
}
use llvm_bleach.Lifter.Values.Machine.{Word, read_register, read_operand, read_operands, constant}
use llvm_bleach.Lifter.Values.Run.{Frame}
use llvm_bleach.Lifter.Values.Reads.{
  mod_twice, word_fits, at_end, Extends, Extends-refl, Extends-trans, Means, MeansOption,
  MeansOption-Extends, Extends-define_with, Means-define_with,
}

module _ {M : Type 0} (apply : ℕ → List ℕ → M → ℕ × M) (start : Frame M) where
  -- An operand is read as the machine reads it.
  abbrev pub IsRead : Builder → Option Value × Builder → Option Word → Type 0
  IsRead b r x = Extends apply start b r.1 × MeansOption apply start r.1 r.0 x

  pub IsRead-constant :
      (b : Builder) (x : ℕ)
      → x % 2 ^ 64 ≡ x
      → IsRead b (some (Value.const 64 x), b) (some (constant x))
  IsRead-constant b x h = (
    Extends-refl apply start b,
    record { is_defined = tt; has_type = refl; has_value = refl; fits = h },
  )

  abbrev pub IsReadAll : Builder → List (Option Value) → List (Option Word) → Type 0
  IsReadAll b [] [] = Unit
  IsReadAll b (v ∷ vs) (w ∷ ws) = MeansOption apply start b v w × IsReadAll b vs ws
  IsReadAll b _ _ = ⊥

  pub IsReadAll-Extends :
      (b c : Builder) (vs : List (Option Value)) (ws : List (Option Word))
      → Extends apply start b c
      → IsReadAll b vs ws
      → IsReadAll c vs ws
  IsReadAll-Extends b c [] [] h m = tt
  IsReadAll-Extends b c (v ∷ vs) (w ∷ ws) h m =
      (MeansOption-Extends apply start b c v w h m.0, IsReadAll-Extends b c vs ws h m.1)
  IsReadAll-Extends b c [] (w ∷ ws) h m = m
  IsReadAll-Extends b c (v ∷ vs) [] h m = m

  module _ (q : Queries) (regs : RegisterFile) where
    pub load_register-Means :
        (r : ℕ) (b : Builder)
        → Both
            (λ x w. Extends apply start b x.1 × Means apply start x.1 x.0 w)
            (load_register regs r b)
            (read_register regs r (at_end apply start b).cpu.vars)
    load_register-Means r b = Both-same (class_for regs r) _ _ λ c.
        Both-same (variable_of regs r) _ _ λ v.
          let x = (at_end apply start b).cpu.vars v in
          let op : ℕ → Op = λ t. Op.load t c.bits v in
          Both.gave (
            Extends-define_with apply start op b (x % 2 ^ c.bits) refl,
            Means-define_with apply start op b (x % 2 ^ c.bits) refl c.bits
                (mod_twice x (2 ^ c.bits)),
          )

    load_register-IsRead :
        (r : ℕ) (b : Builder)
        → Both
            (IsRead b)
            (load_register regs r b >>= present regs)
            (read_register regs r (at_end apply start b).cpu.vars >>= λ x. ok (some x))
    load_register-IsRead r b = Both-bind (load_register-Means r b) λ x w h. Both.gave h

    -- A constant register is read as its constant, any other operand of a register by `m`.
    constant_or :
        (o : Option ConstantReg) (b : Builder) (m : Result ValueError (Option Value × Builder))
        (m' : Result ValueError (Option Word))
        → Both (IsRead b) m m'
        → Both
            (IsRead b)
            (elim o [ some c ↦ ok (some (Value.const 64 (c.value % 2 ^ 64)), b) | none ↦ m ])
            (elim o [ some c ↦ ok (some (constant (c.value % 2 ^ 64))) | none ↦ m' ])
    constant_or none b m m' h = h
    constant_or (some c) b m m' h =
        Both.gave (IsRead-constant b (c.value % 2 ^ 64) (mod_twice c.value (2 ^ 64)))

    implicit_or :
        (implicit : Bool) (b : Builder)
        → Both
            (IsRead b)
            (if implicit then ok (none, b) else err ValueError.assertion)
            (if implicit then ok none else err ValueError.assertion)
    implicit_or true b = Both.gave (Extends-refl apply start b, tt)
    implicit_or false b = Both.failed

    pub operand_to_value-IsRead :
        (op : MachineOperand) (b : Builder)
        → Both
            (IsRead b)
            (operand_to_value q regs op b)
            (read_operand q regs op (at_end apply start b).cpu.vars)
    unfolding operand_to_value
    operand_to_value-IsRead (MachineOperand.reg r RegState.define) b =
        constant_or (const_reg_of regs r) b _ _
          (implicit_or (q.is_implicit (MachineOperand.reg r RegState.define)) b)
    operand_to_value-IsRead (MachineOperand.reg r RegState.kill) b =
        constant_or (const_reg_of regs r) b _ _ (load_register-IsRead r b)
    operand_to_value-IsRead (MachineOperand.reg r RegState.no_flags) b =
        constant_or (const_reg_of regs r) b _ _ (load_register-IsRead r b)
    operand_to_value-IsRead (MachineOperand.imm v) b =
        Both.gave (IsRead-constant b (word v) (word_fits v))
    operand_to_value-IsRead (MachineOperand.global f) b = Both.failed
    operand_to_value-IsRead (MachineOperand.block m) b = Both.failed

    pub operands_to_values-IsReadAll :
        (ops : List MachineOperand) (b : Builder)
        → Both
            (λ r ws. Extends apply start b r.1 × IsReadAll r.1 r.0 ws)
            (operands_to_values q regs ops b)
            (read_operands q regs ops (at_end apply start b).cpu.vars)
    unfolding operands_to_values
    operands_to_values-IsReadAll [] b = Both.gave (Extends-refl apply start b, tt)
    operands_to_values-IsReadAll (op ∷ ops) b = Both-bind (operand_to_value-IsRead op b) λ v w h.
        let ih =
          subst
            (λ cpu.
              Both (λ r ws. Extends apply start v.1 r.1 × IsReadAll r.1 r.0 ws)
                (operands_to_values q regs ops v.1) (read_operands q regs ops cpu.vars))
            h.0.same_cpu (operands_to_values-IsReadAll ops v.1) in
        Both-bind ih λ vs ws k. Both.gave (
          Extends-trans apply start b v.1 vs.1 h.0 k.0,
          (MeansOption-Extends apply start v.1 vs.1 v.0 w k.0 h.1, k.1),
        )

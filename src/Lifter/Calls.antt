-- ===== src/Lifter/Calls.antt =====
-- `generate_call` and `save_registers_before_return` (lib/lifter/lifter.cpp), and how the code that they
-- and `materialize_registers` emit runs.
pub mod Laws
use llvm_bleach.Base.{
  ℕ, Bool, true, false, List, [], ◌∷◌, ◌++◌, Option, none, some, Result, ok, err, map, find_if,
  if◌then◌else◌,
}
use llvm_bleach.Mctomir.Machine.{MachineOperand, MachineInstr}
use llvm_bleach.Lifter.Stats.{RegisterClass}
use llvm_bleach.Lifter.Registers.{
  Transfer, RegisterMap, Materialized, materialize_registers, transfers,
}
use llvm_bleach.Lifter.Registers.Effects.{State, Vars, load_one, save_one}

-- Emitted code, as far as it concerns registers: a load of a variable from the state, a store of one
-- to it, the call of a lifted function on the state, a return, and anything else by its number.
pub data Emitted : Type 0 where
  load : Transfer → Emitted
  save : Transfer → Emitted
  call : ℕ → Emitted
  ret : Emitted
  other : ℕ → Emitted

abbrev pub emit_loads : List RegisterClass → RegisterMap → List Emitted
emit_loads stats rmap = map Emitted.load (transfers 0 stats rmap)

abbrev pub emit_saves : List RegisterClass → RegisterMap → List Emitted
emit_saves stats rmap = map Emitted.save (transfers 0 stats rmap)

abbrev pub is_global : MachineOperand → Bool
is_global (MachineOperand.global f) = true
is_global _ = false

pub data CallError : Type 0 where
  no_callee : CallError

-- The saves go in front of the call, the loads behind it.
abbrev pub call_code : List RegisterClass → RegisterMap → Bool → ℕ → List Emitted
call_code stats rmap functions_nop callee =
    emit_saves stats rmap
    ++ (Emitted.call callee ∷ (if functions_nop then [] else emit_loads stats rmap))

unfoldable pub generate_call :
    List RegisterClass → RegisterMap → Bool → MachineInstr → Result CallError (List Emitted)
generate_call stats rmap functions_nop minst = elim (find_if is_global minst.operands) [
  | some (MachineOperand.global callee) ↦ ok (call_code stats rmap functions_nop callee)
  | _ ↦ err no_callee
]

-- The saves go in front of the first return of a block, if it has one.
unfoldable pub save_before_return : List Emitted → List Emitted → List Emitted
save_before_return saves [] = []
save_before_return saves (Emitted.ret ∷ code) = saves ++ (Emitted.ret ∷ code)
save_before_return saves (Emitted.load t ∷ code) = Emitted.load t ∷ save_before_return saves code
save_before_return saves (Emitted.save t ∷ code) = Emitted.save t ∷ save_before_return saves code
save_before_return saves (Emitted.call f ∷ code) = Emitted.call f ∷ save_before_return saves code
save_before_return saves (Emitted.other i ∷ code) = Emitted.other i ∷ save_before_return saves code

unfoldable pub save_registers_before_return :
    List RegisterClass → RegisterMap → List (List Emitted) → List (List Emitted)
save_registers_before_return stats rmap blocks =
    map (save_before_return (emit_saves stats rmap)) blocks

-- What other code and callees do.
pub record World : Type 0 where
  pub callee : ℕ → State → State
  pub body : ℕ → State → Vars → State × Vars

-- A run ends at a return; code with no return falls off its end.
unfoldable pub run : World → List Emitted → State → Vars → State × Vars
run w [] st vars = (st, vars)
run w (Emitted.load t ∷ code) st vars = run w code st (load_one t st vars)
run w (Emitted.save t ∷ code) st vars = run w code (save_one t vars st) vars
run w (Emitted.call f ∷ code) st vars = run w code (w.callee f st) vars
run w (Emitted.ret ∷ code) st vars = (st, vars)
run w (Emitted.other i ∷ code) st vars = let (st', vars') = w.body i st vars in run w code st' vars'

-- ===== src/Lifter/Calls/Laws.antt =====
-- Around a call the register variables and the state stay in step.
use mathlib.Core.List.{append-nil}
use llvm_bleach.Base.{ℕ, ◌≡◌, refl, sym, ap, ◌∙◌, subst, true, false, List, [], ◌∷◌, ◌++◌, map}
use llvm_bleach.Lifter.Stats.{RegisterClass}
use llvm_bleach.Lifter.Registers.{Transfer, Materialized, materialize_registers, transfers}
use llvm_bleach.Lifter.Registers.Plans.{Separate}
use llvm_bleach.Lifter.Registers.Agree.{materialize-transfers}
use llvm_bleach.Lifter.Registers.Distinct.{materialize-distinct}
use llvm_bleach.Lifter.Registers.Effects.{
  State, Vars, InStep, DistinctVars, DistinctSlots, run_loads, run_saves, run_loads-InStep,
  run_saves-InStep, run_saves_same,
}
use llvm_bleach.Lifter.Calls.{Emitted, World, run, call_code, emit_saves, save_before_return}

-- Loads and saves in front of some code run as a whole.
run-loads :
    (w : World) (ts : List Transfer) (code : List Emitted) (st : State) (vars : Vars)
    → run w (map Emitted.load ts ++ code) st vars ≡ run w code st (run_loads ts st vars)
unfolding run run_loads
run-loads w [] code st vars = refl
run-loads w (t ∷ ts) code st vars = run-loads w ts code st _

run-saves :
    (w : World) (ts : List Transfer) (code : List Emitted) (st : State) (vars : Vars)
    → run w (map Emitted.save ts ++ code) st vars ≡ run w code (run_saves ts vars st) vars
unfolding run run_saves
run-saves w [] code st vars = refl
run-saves w (t ∷ ts) code st vars = run-saves w ts code _ vars

module _ (w : World) (stats : List RegisterClass) (sep : Separate stats) where
  abbrev rmap_of : Materialized
  rmap_of = materialize_registers false stats

  abbrev slots : List Transfer
  slots = transfers 0 stats rmap_of.rmap

  slots-distinct : DistinctVars slots × DistinctSlots slots
  slots-distinct =
      let e = sym (materialize-transfers stats sep) in
      let d = materialize-distinct stats in (subst DistinctVars e d.0, subst DistinctSlots e d.1)

  -- A call sees every register's value in the state; behind it every register variable has the value
  -- that the callee left in the state, and the state is what the callee left.
  pub call_code-InStep :
      (callee : ℕ) (st : State) (vars : Vars)
      → let seen = run_saves slots vars st in
        let r = run w (call_code stats rmap_of.rmap false callee) st vars in
        InStep slots seen vars × InStep slots r.0 r.1 × (r.0 ≡ w.callee callee seen)
  unfolding run
  call_code-InStep callee st vars =
      let seen = run_saves slots vars st in
      let left = w.callee callee seen in
      let e : run w (call_code stats rmap_of.rmap false callee) st vars
          ≡ (left, run_loads slots left vars) =
        run-saves w slots _ st vars
        ∙ ap (λ code. run w code left vars) (sym (append-nil (map Emitted.load slots)))
        ∙ run-loads w slots [] left vars in
      (
        run_saves-InStep slots vars st slots-distinct.1,
        subst (λ r. InStep slots r.0 r.1) (sym e)
            (run_loads-InStep slots left vars slots-distinct.0),
        ap (λ r. r.0) e,
      )

  -- If called functions are assumed to change nothing, the variables keep their values over a call.
  pub call_code_nop :
      (callee : ℕ) (st : State) (vars : Vars)
      → run w (call_code stats rmap_of.rmap true callee) st vars
        ≡ (w.callee callee (run_saves slots vars st), vars)
  unfolding run
  call_code_nop callee st vars = run-saves w slots (Emitted.call callee ∷ []) st vars

  -- A lifted function that only loads its registers and returns leaves the state as it was, whatever
  -- the variables were.
  pub load_return_same :
      (st : State) (vars : Vars)
      → (run w
          (map Emitted.load rmap_of.loads
            ++ save_before_return (emit_saves stats rmap_of.rmap) (Emitted.ret ∷ []))
          st
          vars).0
        ≡ st
  unfolding run save_before_return
  load_return_same st vars =
      let mine = materialize-transfers stats sep in
      ap (λ r. r.0)
        (run-loads w rmap_of.loads _ st vars
          ∙ run-saves w slots (Emitted.ret ∷ []) st (run_loads rmap_of.loads st vars))
      ∙ run_saves_same slots (run_loads rmap_of.loads st vars) st (
          subst (λ ts. InStep ts st (run_loads rmap_of.loads st vars)) (sym mine)
            (run_loads-InStep rmap_of.loads st vars (materialize-distinct stats).0))

  -- Code with no return.
  abbrev pub NoReturn : List Emitted → Type 0
  NoReturn [] = Unit
  NoReturn (Emitted.ret ∷ code) = ⊥
  NoReturn (Emitted.load t ∷ code) = NoReturn code
  NoReturn (Emitted.save t ∷ code) = NoReturn code
  NoReturn (Emitted.call f ∷ code) = NoReturn code
  NoReturn (Emitted.other i ∷ code) = NoReturn code

  run-return :
      (saves code after : List Emitted) (st : State) (vars : Vars)
      → NoReturn code
      → let (st', vars') = run w code st vars in
        run w (save_before_return saves (code ++ (Emitted.ret ∷ after))) st vars
        ≡ run w (saves ++ (Emitted.ret ∷ after)) st' vars'
  unfolding run save_before_return
  run-return saves [] after st vars h = refl
  run-return saves (Emitted.ret ∷ code) after st vars h = absurd h
  run-return saves (Emitted.load t ∷ code) after st vars h = run-return saves code after _ _ h
  run-return saves (Emitted.save t ∷ code) after st vars h = run-return saves code after _ _ h
  run-return saves (Emitted.call f ∷ code) after st vars h = run-return saves code after _ _ h
  run-return saves (Emitted.other i ∷ code) after st vars h = run-return saves code after _ _ h

  -- A block that runs some code and returns leaves, once the saves are put in front of its return, the
  -- value of every register variable in the state; the variables are those that the code left.
  pub save_before_return-InStep :
      (code after : List Emitted) (st : State) (vars : Vars)
      → NoReturn code
      → let left = run w code st vars in
        let r =
          run w
            (save_before_return (emit_saves stats rmap_of.rmap) (code ++ (Emitted.ret ∷ after)))
            st
            vars in
        InStep slots r.0 r.1 × (r.1 ≡ left.1)
  unfolding run
  save_before_return-InStep code after st vars h =
      let left = run w code st vars in
      let e =
        run-return (emit_saves stats rmap_of.rmap) code after st vars h
        ∙ run-saves w slots (Emitted.ret ∷ after) left.0 left.1 in
      (
        subst (λ r. InStep slots r.0 r.1) (sym e)
            (run_saves-InStep slots left.1 left.0 slots-distinct.1),
        ap (λ r. r.1) e,
      )

-- ===== src/Lifter/Values/Run.antt =====
-- How emitted operations run, on temporaries that each of them defines and on the machine.
use llvm_bleach.Base.{ℕ, ◌+◌, ◌%◌, ◌^◌, ◌≡◌, refl, List, [], ◌∷◌, ◌++◌, map}
use llvm_bleach.Lifter.Registers.Effects.{Vars, set_var}
use llvm_bleach.Lifter.Values.{IrType, Value, Op, type_of}
use llvm_bleach.Lifter.Values.Machine.{Cpu, sext_or_trunc, overwrite, truncate}

pub record Frame (M : Type 0) : Type 0 where
  pub temps : Vars
  pub cpu : Cpu M

abbrev pub eval : Vars → Value → ℕ
eval temps (Value.const bits x) = x
eval temps (Value.temp t ty) = temps t

abbrev pub cast_from : IrType → ℕ → ℕ → ℕ
cast_from (IrType.int from) to x = sext_or_trunc from to x
cast_from IrType.other_type to x = x

module _ {M : Type 0} where
  abbrev pub set_temp : ℕ → ℕ → Frame M → Frame M
  set_temp t x s = record s { temps = set_var s.temps t x }

abbrev pub store_to : Vars → ℕ → IrType → ℕ → Vars
store_to vars v ty x = set_var vars v (overwrite ty x (vars v))

module _ {M : Type 0} (apply : ℕ → List ℕ → M → ℕ × M) where
  abbrev pub step : Op → Frame M → Frame M
  step (Op.load t bits v) s = set_temp t (s.cpu.vars v % 2 ^ bits) s
  step (Op.cast t x to) s = set_temp t (cast_from (type_of x) to (eval s.temps x)) s
  step (Op.call t opcode args ty) s =
      let r = apply opcode (map (eval s.temps) args) s.cpu.memory in
      record { temps = set_var s.temps t r.0; cpu = record s.cpu { memory = r.1 } }
  step (Op.store x v) s = record s {
    cpu = record s.cpu { vars = store_to s.cpu.vars v (type_of x) (eval s.temps x) };
  }
  step (Op.add t x y) s = set_temp t ((eval s.temps x + eval s.temps y) % 2 ^ 64) s
  step (Op.stack_load t ty idx) s = set_temp t (truncate ty (s.cpu.stack (eval s.temps idx))) s
  step (Op.stack_store x idx) s = record s {
    cpu = record s.cpu {
      stack = store_to s.cpu.stack (eval s.temps idx) (type_of x) (eval s.temps x);
    };
  }

  unfoldable pub run : List Op → Frame M → Frame M
  run [] s = s
  run (op ∷ ops) s = run ops (step op s)

  run-append : (xs ys : List Op) (s : Frame M) → run (xs ++ ys) s ≡ run ys (run xs s)
  unfolding run
  run-append [] ys s = refl
  run-append (op ∷ xs) ys s = run-append xs ys (step op s)

  pub run_snoc : (xs : List Op) (op : Op) (s : Frame M) → run (xs ++ op ∷ []) s ≡ step op (run xs s)
  unfolding run
  run_snoc xs op s = run-append xs (op ∷ []) s

-- ===== src/Examples/Registers.antt =====
-- Two classes of registers: 1 and 2 with the subregisters 11 and 12, and 21 with none.
use llvm_bleach.Base.{ℕ, ◌+◌, ◌≡◌, refl, false, List, [], ◌∷◌, ◌++◌, map, arith}
use llvm_bleach.Lifter.OrderedMap.{try_emplace}
use llvm_bleach.Base.{get_elem?, ◌/◌, some, String, Ensures, All, ltb, ok, if◌then◌else◌}
use text.Mathlib.Text.{◌==◌ as str_eq}
use llvm_bleach.Lifter.Stats.{
  RegisterClass, Target, collect_functions_stats, collect_register_stats_for, add_to_matching,
  add_reg,
}
use llvm_bleach.Lifter.Stats.Laws.{AllOrdered, Covered, collect_functions_stats-Covered}
use llvm_bleach.Lifter.Registers.{
  Transfer, Materialized, materialize_registers, materialize_classes, materialize_entries,
  emplace_all, transfers,
}
use llvm_bleach.Lifter.Registers.Plans.{Separate}
use llvm_bleach.Lifter.Registers.Agree.{materialize-transfers}
use llvm_bleach.Lifter.Registers.Distinct.{materialize-distinct}
use llvm_bleach.Lifter.Registers.Effects.{
  State, Vars, InStep, DistinctVars, DistinctSlots, run_saves,
}
use llvm_bleach.Lifter.StateType.{ArrayType, create_state_type, largest_regsize, stack_array}
use llvm_bleach.Lifter.StateType.Layout.{FitsIn, create_state_type-FitsIn}
use llvm_bleach.Lifter.Calls.{World, Emitted, run, call_code, save_before_return, emit_saves}
use llvm_bleach.Lifter.Calls.Laws.{call_code-InStep, load_return_same, save_before_return-InStep}

abbrev ints : RegisterClass
ints = record {
  name = "X";
  regex = "x[0-9]+";
  bits = 64;
  entries = (1, 11 ∷ []) ∷ (2, 12 ∷ []) ∷ [];
}

abbrev floats : RegisterClass
floats = record { name = "F"; regex = "f[0-9]+"; bits = 32; entries = (21, []) ∷ [] }

abbrev stats : List RegisterClass
stats = ints ∷ floats ∷ []

separate : Separate stats
separate = (
  ((omega arith, tt), (refl, (refl, tt))),
  ((refl, tt), tt),
  ((refl, (refl, (refl, (refl, tt)))), tt),
  ((tt, tt), tt, tt, tt),
)

abbrev made : Materialized
made = materialize_registers false stats

abbrev transfer : ℕ → ℕ → ℕ → ℕ → Transfer
transfer a e v b = record { array = a; element = e; variable = v; bits = b }

materialize_run : made.loads ≡ transfer 0 0 0 64 ∷ transfer 0 1 1 64 ∷ transfer 1 0 2 32 ∷ []
unfolding materialize_registers materialize_classes materialize_entries emplace_all try_emplace
materialize_run = refl

materialize-transfers_example : transfers 0 stats made.rmap ≡ made.loads
materialize-transfers_example = materialize-transfers stats separate

materialize-distinct_example : DistinctVars made.loads × DistinctSlots made.loads
materialize-distinct_example = materialize-distinct stats

-- A callee that counts up every element of the first class.
abbrev world : World
world = record { callee = λ f st a e. st a e + f; body = λ i st vars. (st, λ v. vars v + i) }

abbrev state : State
state a e = a + e

abbrev vars : Vars
vars v = v + 7

call_code-InStep_example :
    let seen = run_saves (transfers 0 stats made.rmap) vars state in
    let r = run world (call_code stats made.rmap false 5) state vars in
    InStep (transfers 0 stats made.rmap) seen vars
    × InStep (transfers 0 stats made.rmap) r.0 r.1
    × (r.0 ≡ world.callee 5 seen)
call_code-InStep_example = call_code-InStep world stats separate 5 state vars

load_return_same_example :
    (run world
      (map Emitted.load made.loads
        ++ save_before_return (emit_saves stats made.rmap) (Emitted.ret ∷ []))
      state
      vars).0
    ≡ state
load_return_same_example = load_return_same world stats separate state vars

abbrev code : List Emitted
code = Emitted.other 4 ∷ Emitted.call 2 ∷ []

save_before_return-InStep_example :
    let left = run world code state vars in
    let r =
      run world
        (save_before_return (emit_saves stats made.rmap) (code ++ (Emitted.ret ∷ [])))
        state
        vars in
    InStep (transfers 0 stats made.rmap) r.0 r.1 × (r.1 ≡ left.1)
save_before_return-InStep_example =
    save_before_return-InStep world stats separate code [] state vars tt

-- Registers below 20 are named x, all others f; a class matches a register of its own name.
abbrev asm_name_of : ℕ → String
asm_name_of r = if ltb r 20 then "x" else "f"

abbrev target : Target
target = record {
  asm_name = asm_name_of;
  matches = λ rx name. str_eq rx name;
  matches_whole = λ rx name. str_eq rx name;
  classes = [];
}

abbrev new_classes : List RegisterClass
new_classes =
    record { name = "X"; regex = "x"; bits = 0; entries = [] }
    ∷ record { name = "F"; regex = "f"; bits = 0; entries = [] }
    ∷ []

abbrev functions : List (List ℕ)
functions = (2 ∷ 21 ∷ 1 ∷ []) ∷ (1 ∷ 3 ∷ []) ∷ []

collect_run :
    collect_functions_stats target functions new_classes
    ≡ ok (
        record { name = "X"; regex = "x"; bits = 0; entries = (1, []) ∷ (2, []) ∷ (3, []) ∷ [] }
        ∷ record { name = "F"; regex = "f"; bits = 0; entries = (21, []) ∷ [] }
        ∷ [])
unfolding collect_functions_stats collect_register_stats_for add_to_matching add_reg try_emplace
collect_run = refl

collect_functions_stats-Covered_example :
    Ensures
      (λ out. AllOrdered out × All (λ regs. All (Covered out) regs) functions)
      (collect_functions_stats target functions new_classes)
collect_functions_stats-Covered_example =
    collect_functions_stats-Covered target functions new_classes (tt, (tt, tt))

abbrev state_type : List ArrayType
state_type =
    record { elem_bits = 64; count = 2 }
    ∷ record { elem_bits = 32; count = 1 }
    ∷ record { elem_bits = 64; count = 1000 }
    ∷ []

create_state_type_run : create_state_type stats 8000 ≡ ok state_type
unfolding create_state_type largest_regsize stack_array
create_state_type_run = refl

create_state_type-FitsIn_example :
    All (FitsIn state_type) made.loads
    × (stack : ArrayType) × (get_elem? state_type 2 ≡ some stack)
    × (stack.count ≡ 8000 / (stack.elem_bits / 8))
create_state_type-FitsIn_example =
    create_state_type-FitsIn stats 8000 state_type create_state_type_run

-- ===== src/Examples/Values.antt =====
-- An addition to a register of 64 bits of another one and an immediate, which the function takes as 32
-- bits; a store of a register to the stack; and a write of a constant register.
use llvm_bleach.Base.{
  ℕ, ◌+◌, ◌==◌, ◌≡◌, refl, String, List, [], ◌∷◌, map, Option, none, some, Result, ok, err, ◌>>=◌,
  Ensures, if◌then◌else◌, take, drop, arith,
}
use llvm_bleach.Base.Int.{pos, negsuc}
use llvm_bleach.Mctomir.Machine.{MachineOperand, MachineInstr, RegState, find_address}
use llvm_bleach.Lifter.Control.{Queries, is_pc_relative}
use llvm_bleach.Lifter.Generate.{is_stack_manipulation, stack_offset}
use llvm_bleach.Lifter.Function.{find_register_by_name}
use llvm_bleach.Lifter.Values.{IrType, Value, Builder, RegisterFile, ValueError, type_of, cast_args}
use llvm_bleach.Lifter.Values.Instructions.{generate_all}
use llvm_bleach.Lifter.Values.Exec.{Core, exec_straight, exec_all}
use llvm_bleach.Lifter.Values.Run.{Frame, run}
use llvm_bleach.Lifter.Values.Agree.{core_of}
use llvm_bleach.Lifter.Values.Refines.{generate_all-exec_all}
use llvm_bleach.Lifter.Values.Typed.Calls.{cast_args-type_of}
use llvm_bleach.Examples.Lifting.{queries}

abbrev reg : ℕ → MachineOperand
reg r = MachineOperand.reg r RegState.no_flags

abbrev def : ℕ → MachineOperand
def r = MachineOperand.reg r RegState.define

-- The opcode 0 defines its first operand; the opcode 4 is a store.
abbrev defs_of : MachineInstr → List MachineOperand
defs_of i = if i.opcode == 0 then take 1 i.operands else []

abbrev uses_of : MachineInstr → List MachineOperand
uses_of i = if i.opcode == 0 then drop 1 i.operands else i.operands

abbrev value_queries : Queries
value_queries = record queries { uses = uses_of; defs = defs_of; may_store = λ o. o == 4 }

abbrev name_of : ℕ → String
name_of r = if r == 0 then "X0" else if r == 2 then "X2" else if r == 5 then "X5" else "X6"

abbrev register_file : RegisterFile
register_file = record {
  get_name = name_of;
  llvm_classes = (0 ∷ 2 ∷ 5 ∷ 6 ∷ []) ∷ [];
  const_regs = record { name = "X0"; value = 0 } ∷ [];
  reg_stats =
      record {
        name = "GPR";
        regex = "X[0-9]+";
        bits = 64;
        entries = (0, []) ∷ (2, []) ∷ (5, []) ∷ (6, []) ∷ [];
      }
      ∷ [];
  rmap = (0, 0) ∷ (2, 1) ∷ (5, 2) ∷ (6, 3) ∷ [];
  functions =
      λ o. some (record { params = IrType.int 64 ∷ IrType.int 32 ∷ []; ret = IrType.int 64 });
  stack_pointer = "X2";
}

abbrev program : List (Option ℕ × MachineInstr)
program =
    (none, record { opcode = 0; operands = def 5 ∷ reg 6 ∷ MachineOperand.imm (negsuc 0) ∷ [] })
    ∷ (none, record { opcode = 4; operands = reg 5 ∷ reg 2 ∷ MachineOperand.imm (negsuc 7) ∷ [] })
    ∷ (none, record { opcode = 0; operands = def 0 ∷ reg 5 ∷ MachineOperand.imm (pos 1) ∷ [] })
    ∷ []

abbrev sum : List ℕ → ℕ
sum [] = 0
sum (x ∷ xs) = x + sum xs

-- The function adds its arguments, and counts in the memory how often it is called.
abbrev apply : ℕ → List ℕ → ℕ → ℕ × ℕ
apply opcode args calls = (sum args, calls + 1)

abbrev builder : Builder
builder = record { ops = []; next = 0; tracker = 2 ∷ [] }

abbrev start : Frame ℕ
start = record {
  temps = λ t. 0;
  cpu = record { vars = λ v. if v == 1 then 10 else v; stack = λ s. 0; memory = 0 };
}

abbrev slot_of : Result ValueError (Core ℕ) → ℕ
slot_of (ok c) = c.cpu.stack 11
slot_of (err e) = 0

-- The sum, with the immediate as 32 bits, is in the slot one above the stack pointer.
program_run :
    slot_of (exec_all value_queries register_file apply program (core_of apply start builder))
    ≡ 4294967298
unfolding exec_all exec_straight is_stack_manipulation stack_offset is_pc_relative
    find_register_by_name find_address run
program_run = refl

generate_all-exec_all_example :
    (generate_all value_queries register_file program builder >>= λ b'. ok (core_of apply start b'))
    ≡ exec_all value_queries register_file apply program (core_of apply start builder)
generate_all-exec_all_example =
    generate_all-exec_all apply start value_queries register_file program builder

abbrev passed : List (Option Value)
passed =
    some (Value.temp 0 (IrType.int 64)) ∷ some (Value.const 64 7) ∷ some (Value.const 64 8) ∷ []

cast_args-type_of_example :
    Ensures
      (λ r. map type_of r.0 ≡ IrType.int 64 ∷ IrType.int 32 ∷ [])
      (cast_args passed (IrType.int 64 ∷ IrType.int 32 ∷ []) builder)
cast_args-type_of_example =
    cast_args-type_of passed (IrType.int 64 ∷ IrType.int 32 ∷ []) builder (omega arith)

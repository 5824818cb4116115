-- ===== src/Lifter/StateType.antt =====
-- `create_state_type` and `print_state_struct_definition` (lib/lifter/lifter.cpp): the state is a struct
-- with an array for each register class, and the stack behind them.
pub mod Layout
use llvm_bleach.Base.{
  ℕ, zero, suc, ◌/◌, ◌==◌, Bool, true, false, String, List, [], ◌∷◌, ◌++◌, map, Option, none, some,
  Result, ok, err, ◌>>=◌, length, ltb, if◌then◌else◌,
}
use llvm_bleach.Lifter.Stats.{RegisterClass, StatsError}

-- `ArrayType` of an integer type.
pub record ArrayType : Type 0 where
  pub elem_bits : ℕ
  pub count : ℕ

abbrev pub class_array : RegisterClass → ArrayType
class_array c = record { elem_bits = c.bits; count = length c.entries }

-- `max_element` of the register sizes, if there is any.
abbrev pub largest_from : ℕ → List RegisterClass → ℕ
largest_from m [] = m
largest_from m (c ∷ cs) = largest_from (if ltb m c.bits then c.bits else m) cs

unfoldable pub largest_regsize : List RegisterClass → Result StatsError ℕ
largest_regsize [] = err StatsError.empty_stats
largest_regsize (c ∷ cs) = ok (largest_from c.bits cs)

-- `stack_size_bytes / largest_regsize_bytes`: a register of less than a byte makes that a division by
-- zero.
unfoldable pub stack_array : ℕ → ℕ → Result StatsError ArrayType
stack_array bits stack_size =
    if bits / 8 == 0
    then err StatsError.small_registers
    else ok (record { elem_bits = bits; count = stack_size / (bits / 8) })

unfoldable pub create_state_type : List RegisterClass → ℕ → Result StatsError (List ArrayType)
create_state_type stats stack_size = do
  bits ← largest_regsize stats
  stack ← stack_array bits stack_size
  ok (map class_array stats ++ stack ∷ [])

-- One member of the struct as it is printed: `int<bits>_t <name>[<count>];`.
pub record MemberLine : Type 0 where
  pub bits : ℕ
  pub name : String
  pub count : ℕ

-- The assertions of the printer: as many classes as members but one, and no empty array.
pub data PrintError : Type 0 where
  wrong_size empty_array : PrintError

unfoldable pub print_members :
    List RegisterClass → List ArrayType → Result PrintError (List MemberLine)
print_members [] [] = err PrintError.wrong_size
print_members [] (stack ∷ []) =
    ok (record { bits = stack.elem_bits; name = "stack"; count = stack.count } ∷ [])
print_members [] (a ∷ b ∷ arrays) = err PrintError.wrong_size
print_members (c ∷ cs) [] = err PrintError.wrong_size
print_members (c ∷ cs) (a ∷ arrays) = if a.count == 0 then err PrintError.empty_array else (do
  rest ← print_members cs arrays
  ok (record { bits = a.elem_bits; name = c.name; count = a.count } ∷ rest))

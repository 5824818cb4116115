-- ===== src/Lifter/StateType/Layout.antt =====
-- Every access to the state lies within the arrays of its type.
use llvm_bleach.Base.{
  get_elem?-at, ℕ, suc, ◌+◌, ◌/◌, ◌≤◌, ◌<◌, ◌==◌, ◌≡◌, refl, sym, ap, ◌∙◌, subst, false, List, [],
  ◌∷◌, ◌++◌, map, some, ok, arith, length, length-append, length-map, get_elem?, All, All-append,
  >>=-eq-ok,
}
use mathlib.Core.List.{append_assoc}
use llvm_bleach.Lifter.Stats.{RegisterClass}
use llvm_bleach.Lifter.Registers.{
  Transfer, Materialized, materialize_entries, materialize_classes, materialize_registers,
}
use llvm_bleach.Lifter.StateType.{
  ArrayType, class_array, largest_regsize, stack_array, create_state_type, MemberLine,
  print_members,
}

-- The element of a transfer is one of the array that it names, and as wide.
pub record FitsIn (type : List ArrayType) (t : Transfer) : Type 0 where
  pub array : ArrayType
  pub member : get_elem? type t.array ≡ some array
  pub within : t.element < array.count
  pub wide : t.bits ≡ array.elem_bits

entries-FitsIn :
    (type : List ArrayType) (a : ArrayType) (idx ri : ℕ) (es : List (ℕ × List ℕ)) (s : Materialized)
    → get_elem? type idx ≡ some a
    → ri + length es ≤ a.count
    → All (FitsIn type) s.loads
    → All (FitsIn type) (materialize_entries idx ri a.elem_bits es s).loads
unfolding materialize_entries
entries-FitsIn type a idx ri [] s e h k = k
entries-FitsIn type a idx ri ((r, subs) ∷ es) s e h k =
    entries-FitsIn type a idx (suc ri) es _ e (omega arith) (
      All-append (FitsIn type) s.loads _ k
        (record { array = a; member = e; within = omega arith; wide = refl }, tt))

classes-FitsIn :
    (pre : List ArrayType) (idx : ℕ) (cs : List RegisterClass) (post : List ArrayType)
    (s : Materialized)
    → length pre ≡ idx
    → All (FitsIn (pre ++ (map class_array cs ++ post))) s.loads
    → All (FitsIn (pre ++ (map class_array cs ++ post))) (materialize_classes idx cs s).loads
unfolding materialize_classes
classes-FitsIn pre idx [] post s n k = k
classes-FitsIn pre idx (c ∷ cs) post s n k =
    let type = pre ++ (map class_array (c ∷ cs) ++ post) in
    let s1 = materialize_entries idx 0 c.bits c.entries s in
    let here : get_elem? type idx ≡ some (class_array c) =
      rw (← n) (get_elem?-at pre (map class_array cs ++ post) (class_array c)) in
    let one : All (FitsIn type) s1.loads =
      entries-FitsIn type (class_array c) idx 0 c.entries s here (omega arith) k in
    let regroup : (pre ++ class_array c ∷ []) ++ (map class_array cs ++ post) ≡ type =
      append_assoc pre (class_array c ∷ []) (map class_array cs ++ post) in
    subst (λ ty. All (FitsIn ty) (materialize_classes (suc idx) cs s1).loads) regroup
      (classes-FitsIn (pre ++ class_array c ∷ []) (suc idx) cs post s1
        (length-append pre (class_array c ∷ []) ∙ omega arith)
        (subst (λ ty. All (FitsIn ty) s1.loads) (sym regroup) one))

stack_array_slots :
    (bits stack_size : ℕ) (stack : ArrayType)
    → stack_array bits stack_size ≡ ok stack
    → stack.count ≡ stack_size / (stack.elem_bits / 8)
unfolding stack_array
stack_array_slots bits stack_size stack made = ground arith

-- Where a state type is made, every load of `materialize_registers` goes to an element of the array
-- of its class that the type has, with the width of that array; and the member behind the classes is
-- the stack, of as many whole slots as the stack size holds.
pub create_state_type-FitsIn :
    (stats : List RegisterClass) (stack_size : ℕ) (type : List ArrayType)
    → create_state_type stats stack_size ≡ ok type
    → All (FitsIn type) (materialize_registers false stats).loads
      × (stack : ArrayType) × (get_elem? type (length stats) ≡ some stack)
      × (stack.count ≡ stack_size / (stack.elem_bits / 8))
unfolding create_state_type materialize_registers
create_state_type-FitsIn stats stack_size type e =
    let (bits, largest, e1) = >>=-eq-ok (largest_regsize stats) _ e in
    let (stack, made, e2) = >>=-eq-ok (stack_array bits stack_size) _ e1 in
    let whole : map class_array stats ++ stack ∷ [] ≡ type = cc (e2) in
    (
      subst (λ ty. All (FitsIn ty) (materialize_registers false stats).loads) whole
          (classes-FitsIn [] 0 stats (stack ∷ []) (record { rmap = []; loads = []; next = 0 }) refl
            tt),
      stack,
      rw (← whole, ← length-map stats class_array) (get_elem?-at (map class_array stats) [] stack),
      stack_array_slots bits stack_size stack made,
    )

-- The line that declares the array of a class.
abbrev pub class_line : RegisterClass → MemberLine
class_line c = record { bits = c.bits; name = c.name; count = length c.entries }

abbrev pub NonEmpty : RegisterClass → Type 0
NonEmpty c = 0 < length c.entries

print_classes :
    (stats : List RegisterClass) (stack : ArrayType)
    → All NonEmpty stats
    → print_members stats (map class_array stats ++ stack ∷ [])
      ≡ ok (
          map class_line stats
          ++ record { bits = stack.elem_bits; name = "stack"; count = stack.count } ∷ [])
unfolding print_members
print_classes [] stack h = refl
print_classes (c ∷ cs) stack h =
    let some_left : (length c.entries == 0) ≡ false = let n = h.0 in ground arith in
    rw (some_left, print_classes cs stack h.1)

-- For classes that all have a register, the struct of a state type that is made can be printed: a
-- member for each class, in order, with its name, its width and its number of registers, and then the
-- stack, of as many whole slots as the stack size holds.
pub print-create_state_type :
    (stats : List RegisterClass) (stack_size : ℕ) (type : List ArrayType)
    → All NonEmpty stats
    → create_state_type stats stack_size ≡ ok type
    → (bits : ℕ) × (print_members stats type
        ≡ ok (
            map class_line stats
            ++ record { bits = bits; name = "stack"; count = stack_size / (bits / 8) } ∷ []))
unfolding create_state_type
print-create_state_type stats stack_size type h e =
    let (bits, largest, e1) = >>=-eq-ok (largest_regsize stats) _ e in
    let (stack, made, e2) = >>=-eq-ok (stack_array bits stack_size) _ e1 in
    let whole : map class_array stats ++ stack ∷ [] ≡ type = cc (e2) in
    (
      stack.elem_bits,
      ap (print_members stats) (sym whole)
          ∙ print_classes stats stack h
          ∙ ap
              (λ n. ok (
                map class_line stats
                ++ record { bits = stack.elem_bits; name = "stack"; count = n } ∷ []))
              (stack_array_slots bits stack_size stack made),
    )

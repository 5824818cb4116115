-- ===== src/Lifter/Values/Typed/Calls.antt =====
-- The arguments of a call have the types of the parameters.
use llvm_bleach.Base.{
  ℕ, ◌==◌, ◌≤◌, ◌≡◌, refl, ◌∙◌, ap, arith, List, [], ◌∷◌, map, length, Bool-cases, Option, none,
  some, inl, inr, ok, Ensures, Ensures-bind, if◌then◌else◌,
}
use llvm_bleach.Lifter.Values.{
  IrType, Value, Op, Builder, ValueError, type_of, define_with, cast_value_to, cast_args,
}

cast_int-type_of :
    (v : Value) (from to : ℕ) (b : Builder)
    → type_of v ≡ IrType.int from
    → Ensures {E = ValueError} {A = Value × Builder}
        (λ r. type_of r.0 ≡ IrType.int to)
        (if from == to
          then ok (v, b)
          else ok (Value.temp b.next (IrType.int to), define_with (λ t. Op.cast t v to) b))
cast_int-type_of v from to b e = elim (Bool-cases (from == to)) [
  | inl same ↦ let equal : from ≡ to = ground arith in rw same (e ∙ ap IrType.int equal)
  | inr other ↦ rw other refl
]

cast_value_to-type_of :
    (v : Value) (ty : IrType) (b : Builder) → Ensures (λ r. type_of r.0 ≡ ty) (cast_value_to v ty b)
unfolding cast_value_to
cast_value_to-type_of (Value.const n x) (IrType.int to) b =
    cast_int-type_of (Value.const n x) n to b refl
cast_value_to-type_of (Value.const n x) IrType.other_type b = tt
cast_value_to-type_of (Value.temp t (IrType.int n)) (IrType.int to) b =
    cast_int-type_of (Value.temp t (IrType.int n)) n to b refl
cast_value_to-type_of (Value.temp t (IrType.int n)) IrType.other_type b = tt
cast_value_to-type_of (Value.temp t IrType.other_type) ty b = tt

-- Where there are as many arguments as parameters, or more, the arguments that are passed have
-- the types of the parameters, and there are as many.
pub cast_args-type_of :
    (vs : List (Option Value)) (tys : List IrType) (b : Builder)
    → length tys ≤ length vs
    → Ensures (λ r. map type_of r.0 ≡ tys) (cast_args vs tys b)
unfolding cast_args
cast_args-type_of [] [] b h = refl
cast_args-type_of [] (ty ∷ tys) b h = ground arith
cast_args-type_of (v ∷ vs) [] b h = refl
cast_args-type_of (none ∷ vs) (ty ∷ tys) b h = tt
cast_args-type_of (some v ∷ vs) (ty ∷ tys) b h =
    Ensures-bind (λ r. type_of r.0 ≡ ty) (λ r. map type_of r.0 ≡ ty ∷ tys) (cast_value_to v ty b) _
      (cast_value_to-type_of v ty b)
      λ r e.
        Ensures-bind (λ r. map type_of r.0 ≡ tys) (λ r. map type_of r.0 ≡ ty ∷ tys)
          (cast_args vs tys r.1) _ (cast_args-type_of vs tys r.1 (omega (arith, h)))
          λ rs e'. rw (e, e') refl

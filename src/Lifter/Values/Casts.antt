-- ===== src/Lifter/Values/Casts.antt =====
-- What the numbers are that a call gets, behind the casts.
use llvm_bleach.Base.{
  sym, leb, ℕ, ◌%◌, ◌^◌, ◌≡◌, refl, ◌∙◌, arith, ◌==◌, List, [], ◌∷◌, true, Bool-cases, Option, none,
  some, subst, map, inl, inr, Both, Both-bind,
}
use llvm_bleach.Lifter.Values.{IrType, Value, Op, Builder, cast_value_to, cast_args}
use llvm_bleach.Lifter.Values.Machine.{Word, convert, convert_all, sext_or_trunc}
use llvm_bleach.Lifter.Values.Run.{Frame, eval, step, set_temp}
use llvm_bleach.Lifter.Values.Reads.{
  IsDefined, eval_same, IsDefined-le, at_end, Extends, Extends-refl, Extends-trans, Means,
  Extends-define_with, temps-define_with,
}
use llvm_bleach.Lifter.Values.Operands.{IsReadAll, IsReadAll-Extends}

module _ {M : Type 0} (apply : ℕ → List ℕ → M → ℕ × M) (start : Frame M) where
  -- A value is a number.
  pub record Gives (b : Builder) (v : Value) (x : ℕ) : Type 0 where
    pub is_defined : IsDefined b.next v
    pub has_value : eval (at_end apply start b).temps v ≡ x

  abbrev pub GivesAll : Builder → List Value → List ℕ → Type 0
  GivesAll b [] [] = Unit
  GivesAll b (v ∷ vs) (x ∷ xs) = Gives b v x × GivesAll b vs xs
  GivesAll b _ _ = ⊥

  pub Gives-Extends :
      (b c : Builder) (v : Value) (x : ℕ) → Extends apply start b c → Gives b v x → Gives c v x
  Gives-Extends b c v x h m = record {
    is_defined = IsDefined-le apply start v b.next c.next h.grows m.is_defined;
    has_value =
        eval_same v b.next (at_end apply start b).temps (at_end apply start c).temps m.is_defined
          h.same_temps
        ∙ m.has_value;
  }

  pub GivesAll-map :
      (b : Builder) (vs : List Value) (xs : List ℕ)
      → GivesAll b vs xs
      → map (eval (at_end apply start b).temps) vs ≡ xs
  GivesAll-map b [] [] h = refl
  GivesAll-map b (v ∷ vs) (x ∷ xs) h = rw (h.0.has_value, GivesAll-map b vs xs h.1) refl
  GivesAll-map b [] (x ∷ xs) h = elim h [ ]
  GivesAll-map b (v ∷ vs) [] h = elim h [ ]

  sext_or_trunc_same :
      (from to x : ℕ) → (from == to) ≡ true → x % 2 ^ from ≡ x → x ≡ sext_or_trunc from to x
  sext_or_trunc_same from to x e h =
      let same : from ≡ to = ground arith in
      let whole : leb from from ≡ true = ground arith in
      subst (λ t. x ≡ sext_or_trunc from t x) same (rw whole (sym h))

  cast_value_to-Gives :
      (v : Value) (w : Word) (ty : IrType) (b : Builder)
      → Means apply start b v w
      → Both
          (λ r y. Extends apply start b r.1 × Gives r.1 r.0 y)
          (cast_value_to v ty b)
          (convert w ty)
  unfolding cast_value_to
  cast_value_to-Gives v w IrType.other_type b m = rw (m.has_type, cast_value_to) Both.failed
  cast_value_to-Gives v w (IrType.int to) b m = elim (Bool-cases (w.bits == to)) [
    | inl e ↦
        rw (m.has_type, e, cast_value_to)
          (Both.gave (
            Extends-refl apply start b,
            record {
              is_defined = m.is_defined;
              has_value = m.has_value ∙ sext_or_trunc_same w.bits to w.value e m.fits;
            },
          ))
    | inr e ↦
        let op : ℕ → Op = λ t. Op.cast t v to in
        let y = sext_or_trunc w.bits to w.value in
        let sets : step apply (op b.next) (at_end apply start b)
            ≡ set_temp b.next y (at_end apply start b) =
          rw (m.has_type, m.has_value) refl in
        rw (m.has_type, e, cast_value_to)
          (Both.gave (
            Extends-define_with apply start op b y sets,
            record {
              is_defined = omega arith;
              has_value = temps-define_with apply start op b y sets;
            },
          ))
  ]

  pub cast_args-GivesAll :
      (vs : List (Option Value)) (ws : List (Option Word)) (tys : List IrType) (b : Builder)
      → IsReadAll apply start b vs ws
      → Both
          (λ r xs. Extends apply start b r.1 × GivesAll r.1 r.0 xs)
          (cast_args vs tys b)
          (convert_all ws tys)
  unfolding cast_args
  cast_args-GivesAll [] [] tys b h = Both.gave (Extends-refl apply start b, tt)
  cast_args-GivesAll (v ∷ vs) (w ∷ ws) [] b h = Both.gave (Extends-refl apply start b, tt)
  cast_args-GivesAll (none ∷ vs) (none ∷ ws) (ty ∷ tys) b h = Both.failed
  cast_args-GivesAll (some v ∷ vs) (some w ∷ ws) (ty ∷ tys) b h =
      Both-bind (cast_value_to-Gives v w ty b h.0) λ r y k.
        Both-bind
          (cast_args-GivesAll vs ws tys r.1 (IsReadAll-Extends apply start b r.1 vs ws k.0 h.1))
          λ rs ys l. Both.gave (
            Extends-trans apply start b r.1 rs.1 k.0 l.0,
            (Gives-Extends r.1 rs.1 r.0 y l.0 k.1, l.1),
          )
  cast_args-GivesAll (none ∷ vs) (some w ∷ ws) (ty ∷ tys) b h = elim h.0 [ ]
  cast_args-GivesAll (some v ∷ vs) (none ∷ ws) (ty ∷ tys) b h = elim h.0 [ ]
  cast_args-GivesAll [] (w ∷ ws) tys b h = elim h [ ]
  cast_args-GivesAll (v ∷ vs) [] tys b h = elim h [ ]

-- ===== src/Lifter/Globals/Kept.antt =====
-- A global with local linkage is never found by name, so none is changed once it is made.
use llvm_bleach.Base.{
  get_elem?-at, ℕ, zero, suc, ◌≡◌, ◌≢◌, refl, subst, ap, ◌∙◌, inl, inr, Bool, true, false, String,
  List, [], ◌∷◌, ◌++◌, Option, some, get_elem?, Option-cases,
}
use llvm_bleach.Lifter.Globals.{GlobalVariable, Constant, has_local_linkage, modify, create_global}

-- What `getGlobalVariable` promises: the variable is of the module, and has no local linkage.
abbrev pub NotLocal : (String → List GlobalVariable → Option ℕ) → Type 0
NotLocal get_global_variable =
    (name : String) (m : List GlobalVariable) (i : ℕ)
    → get_global_variable name m ≡ some i
    → (g : GlobalVariable) × (get_elem? m i ≡ some g) × (has_local_linkage g ≡ false)

-- Globals with local linkage stay as they are.
abbrev pub LocalsKept : List GlobalVariable → List GlobalVariable → Type 0
LocalsKept m m' =
    (i : ℕ) (g : GlobalVariable)
    → get_elem? m i ≡ some g
    → has_local_linkage g ≡ true
    → get_elem? m' i ≡ some g

-- A global with local linkage, with this initializer.
abbrev pub HoldsLocal : List GlobalVariable → ℕ → Bool → Constant → Type 0
HoldsLocal m i is_constant val =
    (g : GlobalVariable) × (get_elem? m i ≡ some g)
    × (has_local_linkage g ≡ true)
    × (g.is_constant ≡ is_constant)
    × (g.initializer ≡ some val)

pub HoldsLocal-kept :
    (m m' : List GlobalVariable) (i : ℕ) (c : Bool) (val : Constant)
    → LocalsKept m m'
    → HoldsLocal m i c val
    → HoldsLocal m' i c val
HoldsLocal-kept m m' i c val k (g, e, l, c', v) = (g, k i g e l, l, c', v)

pub get_elem?-append :
    (m more : List GlobalVariable) (i : ℕ) (g : GlobalVariable)
    → get_elem? m i ≡ some g
    → get_elem? (m ++ more) i ≡ some g
get_elem?-append [] more i g e = cc
get_elem?-append (x ∷ m) more zero g e = e
get_elem?-append (x ∷ m) more (suc i) g e = get_elem?-append m more i g e

get_elem?-modify :
    (m : List GlobalVariable) (i : ℕ) (f : GlobalVariable → GlobalVariable) (g : GlobalVariable)
    → get_elem? m i ≡ some g
    → get_elem? (modify i f m) i ≡ some (f g)
get_elem?-modify [] i f g e = cc
get_elem?-modify (x ∷ m) zero f g e = cc
get_elem?-modify (x ∷ m) (suc i) f g e = get_elem?-modify m i f g e

get_elem?-modify_other :
    (m : List GlobalVariable) (i j : ℕ) (f : GlobalVariable → GlobalVariable)
    → j ≢ i
    → get_elem? (modify i f m) j ≡ get_elem? m j
get_elem?-modify_other [] i j f n = refl
get_elem?-modify_other (x ∷ m) zero zero f n = absurd (n refl)
get_elem?-modify_other (x ∷ m) zero (suc j) f n = refl
get_elem?-modify_other (x ∷ m) (suc i) zero f n = refl
get_elem?-modify_other (x ∷ m) (suc i) (suc j) f n =
    get_elem?-modify_other m i j f (λ e. n (ap suc e))

module _ (get_global_variable : String → List GlobalVariable → Option ℕ)
    (law : NotLocal get_global_variable) where
  pub create_global-kept :
      (name : String) (val : Constant) (m : List GlobalVariable)
      → LocalsKept m (create_global get_global_variable name val m).0
  unfolding create_global
  create_global-kept name val m i g e l = elim (Option-cases (get_global_variable name m)) [
    | inl n ↦ rw (n, create_global) (get_elem?-append m _ i g e)
    | inr (j, n) ↦
        let (h, eh, out) = law name m j n in
        let other : i ≢ j = λ same. cc (subst (λ k. get_elem? m k ≡ some g) same e, eh, out, l) in
        rw (n, create_global) (get_elem?-modify_other m j i _ other ∙ e)
  ]

  pub create_global-HoldsLocal :
      (name : String) (val : Constant) (m : List GlobalVariable)
      → HoldsLocal
          (create_global get_global_variable name val m).0
          (create_global get_global_variable name val m).1
          true
          val
  unfolding create_global
  create_global-HoldsLocal name val m = elim (Option-cases (get_global_variable name m)) [
    | inl n ↦ rw (n, create_global) (_, get_elem?-at m [] _, refl, refl, refl)
    | inr (j, n) ↦
        let (h, eh, out) = law name m j n in
        rw (n, create_global) (_, get_elem?-modify m j _ h eh, refl, refl, refl)
  ]

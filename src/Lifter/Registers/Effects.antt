-- ===== src/Lifter/Registers/Effects.antt =====
-- What the emitted transfers do when they run: on the state, the arrays of register values in memory,
-- and on the local variables of the lifted function.
use llvm_bleach.Base.{
  ℕ, suc, ◌≡◌, ◌≢◌, refl, sym, ap, ◌∙◌, false, ◌&&◌, List, [], ◌∷◌, arith, All, ◌==◌, ==_refl,
  if◌then◌else◌,
}
use mathlib.Core.Path.{fun_ext}
use llvm_bleach.Lifter.Registers.{Transfer}

-- A state gives the value of an element of an array.
abbrev pub State : Type 0
State = ℕ → ℕ → ℕ

abbrev pub Vars : Type 0
Vars = ℕ → ℕ

abbrev pub set_var : Vars → ℕ → ℕ → Vars
set_var vars v x w = if v == w then x else vars w

abbrev pub set_slot : State → ℕ → ℕ → ℕ → State
set_slot st a e x b f = if a == b && e == f then x else st b f

abbrev pub load_one : Transfer → State → Vars → Vars
load_one t st vars = set_var vars t.variable (st t.array t.element)

abbrev pub save_one : Transfer → Vars → State → State
save_one t vars st = set_slot st t.array t.element (vars t.variable)

unfoldable pub run_loads : List Transfer → State → Vars → Vars
run_loads [] st vars = vars
run_loads (t ∷ ts) st vars = run_loads ts st (load_one t st vars)

unfoldable pub run_saves : List Transfer → Vars → State → State
run_saves [] vars st = st
run_saves (t ∷ ts) vars st = run_saves ts vars (save_one t vars st)

-- Every variable of a transfer has the value of its element.
abbrev pub InStep : List Transfer → State → Vars → Type 0
InStep ts st vars = All (λ t. vars t.variable ≡ st t.array t.element) ts

abbrev pub OtherVar : ℕ → Transfer → Type 0
OtherVar v t = t.variable ≢ v

abbrev pub OtherSlot : Transfer → Transfer → Type 0
OtherSlot t u = (u.array == t.array && u.element == t.element) ≡ false

-- No variable, and no element, is used twice.
abbrev pub DistinctVars : List Transfer → Type 0
DistinctVars [] = Unit
DistinctVars (t ∷ ts) = All (OtherVar t.variable) ts × DistinctVars ts

abbrev pub DistinctSlots : List Transfer → Type 0
DistinctSlots [] = Unit
DistinctSlots (t ∷ ts) = All (OtherSlot t) ts × DistinctSlots ts

run_loads_other :
    (ts : List Transfer) (st : State) (vars : Vars) (v : ℕ)
    → All (OtherVar v) ts
    → run_loads ts st vars v ≡ vars v
unfolding run_loads
run_loads_other [] st vars v h = refl
run_loads_other (t ∷ ts) st vars v h =
    run_loads_other ts st (load_one t st vars) v h.1 ∙ (let ne = h.0 in ground arith)

run_saves_other :
    (ts : List Transfer) (vars : Vars) (st : State) (a e : ℕ)
    → All (λ t. (t.array == a && t.element == e) ≡ false) ts
    → run_saves ts vars st a e ≡ st a e
unfolding run_saves
run_saves_other [] vars st a e h = refl
run_saves_other (t ∷ ts) vars st a e h =
    run_saves_other ts vars (save_one t vars st) a e h.1 ∙ rw h.0 refl

-- Behind the loads every variable is in step with the state.
pub run_loads-InStep :
    (ts : List Transfer) (st : State) (vars : Vars)
    → DistinctVars ts
    → InStep ts st (run_loads ts st vars)
unfolding run_loads
run_loads-InStep [] st vars h = tt
run_loads-InStep (t ∷ ts) st vars h = (
  run_loads_other ts st (load_one t st vars) t.variable h.0 ∙ rw (==_refl t.variable) refl,
  run_loads-InStep ts st (load_one t st vars) h.1,
)

-- Behind the saves every element is in step with the variables.
pub run_saves-InStep :
    (ts : List Transfer) (vars : Vars) (st : State)
    → DistinctSlots ts
    → InStep ts (run_saves ts vars st) vars
unfolding run_saves
run_saves-InStep [] vars st h = tt
run_saves-InStep (t ∷ ts) vars st h = (
  sym (
      run_saves_other ts vars (save_one t vars st) t.array t.element h.0
      ∙ rw (==_refl t.array, ==_refl t.element) refl),
  run_saves-InStep ts vars (save_one t vars st) h.1,
)

save_one_same :
    (t : Transfer) (vars : Vars) (st : State)
    → vars t.variable ≡ st t.array t.element
    → save_one t vars st ≡ st
save_one_same t vars st h = fun_ext λ a. fun_ext λ e. ground arith

-- Saving variables that are in step changes nothing.
pub run_saves_same :
    (ts : List Transfer) (vars : Vars) (st : State) → InStep ts st vars → run_saves ts vars st ≡ st
unfolding run_saves
run_saves_same [] vars st h = refl
run_saves_same (t ∷ ts) vars st h =
    ap (run_saves ts vars) (save_one_same t vars st h.0) ∙ run_saves_same ts vars st h.1

-- The variables are numbered from `n` on.
abbrev pub VarsFrom : ℕ → List Transfer → Type 0
VarsFrom n [] = Unit
VarsFrom n (t ∷ ts) = (t.variable ≡ n) × VarsFrom (suc n) ts

-- ===== src/Lifter/Module/Linked.antt =====
-- The functions of the module that is lifted are cloned, and call each other's clones.
use llvm_bleach.Base.{
  ℕ, suc, ◌<◌, ◌==◌, ◌≡◌, refl, inl, inr, true, false, List, [], ◌∷◌, map, some, ok, All, arith,
  Bool, Bool-cases, is_contained,
}
use llvm_bleach.Mctomir.Machine.{MachineBlock, find_address}
use llvm_bleach.Lifter.Control.{Queries}
use llvm_bleach.Lifter.Clone.Replace.{Replaces, Distinct}
use llvm_bleach.Lifter.Clone.Numbers.{renumber}
use llvm_bleach.Lifter.Clone.Renamed.{
  rename_block, ids_of, IsSelfContained, create_basic_blocks_for_mfunc_renamed,
}
use llvm_bleach.Lifter.Module.{
  SourceFunction, ClonedFunction, old_name_of, clone_machine_function, clone_functions, clone_map,
  change_function_calls, clone_module,
}
use llvm_bleach.Lifter.Module.Calls.{
  KnownCall, KnownCall-rename, calls_to_clones, change_blocks_renamed,
}

abbrev pub function_ids : List SourceFunction → List ℕ
function_ids fs = map (λ f. f.id) fs

-- The blocks of a function are as the cloning wants them.
abbrev pub IsClonable : ℕ → SourceFunction → Type 0
IsClonable next_block f =
    Distinct (ids_of f.blocks)
    × All (λ s. s < next_block) (ids_of f.blocks)
    × All (λ p. IsSelfContained (ids_of f.blocks) p.1) f.blocks

-- The clone of a function, with every block renamed.
abbrev pub clone_of_function : ℕ → ℕ → SourceFunction → ClonedFunction
clone_of_function next_block id f = record {
  old = f.id;
  old_name = old_name_of f.name;
  id = id;
  name = f.name;
  blocks = map (λ p. rename_block (renumber (ids_of f.blocks) next_block) id p.1) f.blocks;
}

abbrev pub clones_from : ℕ → ℕ → List SourceFunction → List ClonedFunction
clones_from next_block next [] = []
clones_from next_block next (f ∷ fs) =
    clone_of_function next_block next f ∷ clones_from next_block (suc next) fs

-- The clone with its calls to clones.
abbrev pub linked : Queries → (ℕ → ℕ) → ClonedFunction → ClonedFunction
linked q clone_of c = record c { blocks = map (calls_to_clones q clone_of) c.blocks }

clone_functions-from :
    (is_branch : ℕ → Bool) (replace_successor : ℕ → ℕ → List ℕ → List ℕ) (next_block next : ℕ)
    (fs : List SourceFunction)
    → Replaces replace_successor
    → All (IsClonable next_block) fs
    → clone_functions is_branch replace_successor next_block next fs
      ≡ ok (clones_from next_block next fs)
unfolding clone_functions clone_machine_function
clone_functions-from is_branch replace next_block next [] law h = refl
clone_functions-from is_branch replace next_block next (f ∷ fs) law ((d, below, whole), h) =
    rw
      (
        create_basic_blocks_for_mfunc_renamed is_branch replace next f.blocks next_block law d below
            whole,
        clone_functions-from is_branch replace next_block (suc next) fs law h,
      )
      refl

clone_map-found :
    (next_block next y : ℕ) (fs : List SourceFunction)
    → is_contained y (function_ids fs) ≡ true
    → find_address y (clone_map (clones_from next_block next fs))
      ≡ some (renumber (function_ids fs) next y)
unfolding clone_map find_address
clone_map-found next_block next y [] c = cc
clone_map-found next_block next y (f ∷ fs) c = elim (Bool-cases (y == f.id)) [
  | inl e ↦ let flipped : f.id == y ≡ true = ground arith in rw (e, flipped) refl
  | inr e ↦
      let flipped : f.id == y ≡ false = ground arith in
      rw (e, flipped) (clone_map-found next_block (suc next) y fs (ground arith))
]

module _ (q : Queries) (ids : List ℕ) where
  -- All calls of the function go to functions of the module.
  abbrev pub HasKnownCalls : SourceFunction → Type 0
  HasKnownCalls f = All (λ p. All (KnownCall q ids) p.1.instrs) f.blocks

  known_in_clones :
      (ren : ℕ → ℕ) (id : ℕ) (src : List (ℕ × MachineBlock))
      → All (λ p. All (KnownCall q ids) p.1.instrs) src
      → All (λ b. All (KnownCall q ids) b.instrs) (map (λ p. rename_block ren id p.1) src)
  known_in_clones ren id [] h = tt
  known_in_clones ren id ((n, b) ∷ src) h =
      (KnownCall-rename q ids ren b.instrs h.0, known_in_clones ren id src h.1)

  module _ (next_block : ℕ) (clone_of : ℕ → ℕ) (funcs : List (ℕ × ℕ))
      (found : (f : ℕ) → is_contained f ids ≡ true → find_address f funcs ≡ some (clone_of f)) where
    change_functions_linked :
        (next : ℕ) (fs : List SourceFunction)
        → All HasKnownCalls fs
        → change_function_calls q funcs (clones_from next_block next fs)
          ≡ ok (map (linked q clone_of) (clones_from next_block next fs))
    unfolding change_function_calls
    change_functions_linked next [] h = refl
    change_functions_linked next (f ∷ fs) h =
        let c = clone_of_function next_block next f in
        rw
          (
            change_blocks_renamed q ids clone_of funcs found c.blocks
                (known_in_clones (renumber (ids_of f.blocks) next_block) next f.blocks h.0),
            change_functions_linked (suc next) fs h.1,
          )
          refl

-- For functions whose blocks have different numbers and go to blocks of their function, each once, and
-- whose calls all go to functions of the module, cloning succeeds: there is one new function for each,
-- in order, under its name, whose blocks are those of the old one with every block replaced by its
-- clone, and in which every call goes to the clone of its callee.
pub clone_module-linked :
    (q : Queries) (is_branch : ℕ → Bool) (replace_successor : ℕ → ℕ → List ℕ → List ℕ)
    (next_block next : ℕ) (fs : List SourceFunction)
    → Replaces replace_successor
    → All (IsClonable next_block) fs
    → All (HasKnownCalls q (function_ids fs)) fs
    → clone_module q is_branch replace_successor next_block next fs
      ≡ ok (map (linked q (renumber (function_ids fs) next)) (clones_from next_block next fs))
unfolding clone_module
clone_module-linked q is_branch replace_successor next_block next fs law h known =
    rw (clone_functions-from is_branch replace_successor next_block next fs law h) (
      change_functions_linked q (function_ids fs) next_block (renumber (function_ids fs) next)
        (clone_map (clones_from next_block next fs)) (λ f c. clone_map-found next_block next f fs c)
        next fs known)

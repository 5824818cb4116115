-- ===== src/Lifter/Bleach/Laws.antt =====
-- What `bleach_module` makes of a module.
use Prim.Native.String.{◌++◌ as append}
use llvm_bleach.Base.{
  map_error, Ensures-map_error, ℕ, suc, ◌≡◌, refl, List, [], ◌∷◌, map, Result, ok, err, true, false,
  All, Ensures, Ensures-bind, Ensures-any, length,
}
use llvm_bleach.Mctomir.Machine.{MachineBlock}
use llvm_bleach.Lifter.Registers.{materialize_registers}
use llvm_bleach.Lifter.Stats.{collect_register_stats}
use llvm_bleach.Lifter.StateType.{create_state_type}
use llvm_bleach.Lifter.StateType.Layout.{FitsIn, create_state_type-FitsIn}
use llvm_bleach.Lifter.Control.{Queries, Emit}
use llvm_bleach.Lifter.Clone.Numbers.{renumber}
use llvm_bleach.Lifter.Clone.Replace.{Replaces}
use llvm_bleach.Lifter.Globals.{GlobalVariable, SectionEntry, entries}
use llvm_bleach.Lifter.Globals.Kept.{NotLocal, HoldsLocal}
use llvm_bleach.Lifter.Globals.Table.{DescribesAll, create_sections-DescribesAll}
use llvm_bleach.Lifter.Function.{MachineCode, translated_blocks}
use llvm_bleach.Lifter.Function.Blocks.{BlocksEnd, IsLiftable, generate_function-BlocksEnd}
use llvm_bleach.Lifter.Module.{SourceFunction, ClonedFunction}
use llvm_bleach.Lifter.Module.Linked.{
  function_ids, IsClonable, HasKnownCalls, clones_from, linked, clone_module-linked,
}
use llvm_bleach.Lifter.Bleach.{
  BleachError, Settings, LiftedFunction, BleachedModule, number_blocks, start_of_code,
  generate_clone, generate_clones, entry_calls_of, finish_functions, bleach_module, in_stats,
  in_function, function_regs,
}

-- The function has the name with the prefix, and the code of the clone's blocks, one after the other.
abbrev pub Lifts : Settings → ClonedFunction → LiftedFunction → Type 0
Lifts s c f =
    (f.name ≡ append s.lifted_prefix c.name)
    × BlocksEnd (number_blocks s.next_block c.blocks) (start_of_code s) f.code

abbrev pub LiftsAll : Settings → List ClonedFunction → List LiftedFunction → Type 0
LiftsAll s [] [] = Unit
LiftsAll s [] (f ∷ fs) = ⊥
LiftsAll s (c ∷ cs) [] = ⊥
LiftsAll s (c ∷ cs) (f ∷ fs) = Lifts s c f × LiftsAll s cs fs

abbrev CodesEnd : Settings → List ClonedFunction → List Emit → Type 0
CodesEnd s [] [] = Unit
CodesEnd s [] (e ∷ es) = ⊥
CodesEnd s (c ∷ cs) [] = ⊥
CodesEnd s (c ∷ cs) (e ∷ es) =
    BlocksEnd (number_blocks s.next_block c.blocks) (start_of_code s) e × CodesEnd s cs es

-- The clones of the functions, with their calls.
abbrev pub clones_of : Settings → List SourceFunction → List ClonedFunction
clones_of s fs =
    map (linked s.q (renumber (function_ids fs) s.next)) (clones_from s.next_block s.next fs)

abbrev pub CanLift : Queries → ClonedFunction → Type 0
CanLift q c = All (λ b. IsLiftable q b.instrs) c.blocks

-- A function for each clone; a state that holds the registers that are loaded; and a table of the
-- sections that the look-up function is given.
abbrev pub IsBleached : Settings → List SourceFunction → BleachedModule → Type 0
IsBleached s fs r =
    LiftsAll s (clones_of s fs) r.functions
    × All (FitsIn r.state) (materialize_registers false r.stats).loads
    × (es : List SectionEntry) × DescribesAll r.globals s.sections es
    × HoldsLocal r.globals r.lookup.sections_array true (entries es)
    × (r.lookup.sections_count ≡ length s.sections)

-- What is returned is what the step gave.
gives :
    {E A : Type 0} (wrap : E → BleachError) (r : Result E A)
    → Ensures (λ a. r ≡ ok a) (map_error wrap r)
gives wrap (ok a) = refl
gives wrap (err e) = tt

module _ (s : Settings) where
  numbered-IsLiftable :
      (n : ℕ) (bs : List MachineBlock)
      → All (λ b. IsLiftable s.q b.instrs) bs
      → All (λ b. IsLiftable s.q b.instrs) (number_blocks n bs)
  numbered-IsLiftable n [] h = tt
  numbered-IsLiftable n (b ∷ bs) h = (h.0, numbered-IsLiftable (suc n) bs h.1)

  generate_clones-CodesEnd :
      (cs : List ClonedFunction)
      → All (CanLift s.q) cs
      → Ensures (CodesEnd s cs) (generate_clones s cs)
  unfolding generate_clones generate_clone
  generate_clones-CodesEnd [] h = tt
  generate_clones-CodesEnd (c ∷ cs) h =
      Ensures-bind (BlocksEnd blocks (start_of_code s)) _ (generate_clone s c) _ one (λ e ends.
        Ensures-bind (CodesEnd s cs) (CodesEnd s (c ∷ cs)) (generate_clones s cs) _
          (generate_clones-CodesEnd cs h.1) (λ es rest. (ends, rest)))
    where
      blocks : List MachineCode
      blocks = number_blocks s.next_block c.blocks

      one : Ensures (BlocksEnd blocks (start_of_code s)) (generate_clone s c)
      one =
          Ensures-bind (λ _. Unit {0}) (BlocksEnd blocks (start_of_code s))
            (map_error in_function (translated_blocks s.trfinfo c.name)) _ (Ensures-any _)
            (λ trblocks u. Ensures-map_error in_function (BlocksEnd blocks (start_of_code s)) _ (
              generate_function-BlocksEnd s.q _ s.stack_pointer trblocks blocks (start_of_code s)
                (numbered-IsLiftable s.next_block c.blocks h.0)))

  finish_functions-LiftsAll :
      (translated cs : List ClonedFunction) (codes : List Emit)
      → CodesEnd s cs codes
      → Ensures (LiftsAll s cs) (finish_functions s translated cs codes)
  unfolding finish_functions
  finish_functions-LiftsAll translated [] [] h = tt
  finish_functions-LiftsAll translated [] (e ∷ es) h = absurd h
  finish_functions-LiftsAll translated (c ∷ cs) [] h = absurd h
  finish_functions-LiftsAll translated (c ∷ cs) (e ∷ es) h =
      Ensures-bind (λ _. Unit {0}) (LiftsAll s (c ∷ cs)) (entry_calls_of s translated c) _
        (Ensures-any _)
        (λ calls u.
          Ensures-bind (LiftsAll s cs) (LiftsAll s (c ∷ cs)) (finish_functions s translated cs es) _
            (finish_functions-LiftsAll translated cs es h.1) (λ rest l. ((refl, h.0), l)))

-- For functions that can be cloned and call functions of the module, and whose clones have their
-- branches and returns at the ends of their blocks and none indirect, `bleach_module` reports an error
-- or gives: for each function, in order, one with the prefix in front of its name, whose code is that of
-- the blocks of the clone, each in its own IR block with one terminator, at its end; a state type with
-- an element as wide for every register that is loaded; and a look-up function with a constant table
-- that describes every section.
pub bleach_module-IsBleached :
    (s : Settings) (m : List GlobalVariable) (fs : List SourceFunction)
    → Replaces s.replace_successor
    → NotLocal s.get_global_variable
    → All (IsClonable s.next_block) fs
    → All (HasKnownCalls s.q (function_ids fs)) fs
    → All (CanLift s.q) (clones_of s fs)
    → Ensures (IsBleached s fs) (bleach_module s m fs)
unfolding bleach_module
bleach_module-IsBleached s m fs law not_local clonable known can =
    let (m', table, es, made, at_table, described, kept) =
      create_sections-DescribesAll s.get_global_variable m s.sections not_local in
    Ensures-bind (λ _. Unit {0}) (IsBleached s fs)
      (map_error in_stats (
        collect_register_stats s.target s.regclasses s.subregs
          (map (λ f. function_regs f.blocks) fs)))
      _ (Ensures-any _)
      (λ stats u.
        rw
          (
            clone_module-linked s.q s.is_branch s.replace_successor s.next_block s.next fs law
                clonable known,
            made,
          )
          (Ensures-bind (λ t. create_state_type stats s.stack_size ≡ ok t) (IsBleached s fs)
            (map_error in_stats (create_state_type stats s.stack_size)) _ (gives in_stats _)
            (λ state typed.
              Ensures-bind (CodesEnd s (clones_of s fs)) (IsBleached s fs)
                (generate_clones s (clones_of s fs)) _
                (generate_clones-CodesEnd s (clones_of s fs) can)
                (λ codes ends.
                  Ensures-bind (LiftsAll s (clones_of s fs)) (IsBleached s fs)
                    (finish_functions s (clones_of s fs) (clones_of s fs) codes) _
                    (finish_functions-LiftsAll s (clones_of s fs) (clones_of s fs) codes ends)
                    (λ functions lifts. (
                      lifts,
                      (create_state_type-FitsIn stats s.stack_size state typed).0,
                      es,
                      described,
                      at_table,
                      refl,
                    ))))))

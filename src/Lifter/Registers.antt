-- ===== src/Lifter/Registers.antt =====
-- `materialize_registers`, `save_registers` and `load_registers` (lib/lifter/lifter.cpp). What they emit
-- for one register is a `Transfer`: the array of its class in the state, the element, the local
-- variable (the `alloca`), and the width of the load and the store.
pub mod Plans
pub mod Agree
pub mod Effects
pub mod Distinct
use llvm_bleach.Base.{
  Bool, if◌then◌else◌, ℕ, suc, ◌+◌, List, [], ◌∷◌, ◌++◌, filter_if, is_contained,
}
use llvm_bleach.Lifter.OrderedMap.{try_emplace}
use llvm_bleach.Lifter.Stats.{RegisterClass, keys, has_key}

pub record Transfer : Type 0 where
  pub array : ℕ
  pub element : ℕ
  pub variable : ℕ
  pub bits : ℕ

-- `reg2vals`: each register with its local variable.
abbrev pub RegisterMap : Type 0
RegisterMap = List (ℕ × ℕ)

-- The subregisters share the variable of their register.
unfoldable pub emplace_all : List ℕ → ℕ → RegisterMap → RegisterMap
emplace_all [] v rmap = rmap
emplace_all (r ∷ rs) v rmap = emplace_all rs v (try_emplace r v rmap)

-- What materialization has made so far: `next` is the next local variable.
pub record Materialized : Type 0 where
  pub rmap : RegisterMap
  pub loads : List Transfer
  pub next : ℕ

-- The registers of one class, in the order of their numbers.
unfoldable pub materialize_entries : ℕ → ℕ → ℕ → List (ℕ × List ℕ) → Materialized → Materialized
materialize_entries idx reg_idx bits [] s = s
materialize_entries idx reg_idx bits ((reg, subregs) ∷ entries) s =
    materialize_entries idx (suc reg_idx) bits entries (record {
      rmap = emplace_all subregs s.next (try_emplace reg s.next s.rmap);
      loads =
          s.loads ++ record { array = idx; element = reg_idx; variable = s.next; bits = bits } ∷ [];
      next = suc s.next;
    })

unfoldable pub materialize_classes : ℕ → List RegisterClass → Materialized → Materialized
materialize_classes idx [] s = s
materialize_classes idx (c ∷ stats) s =
    materialize_classes (suc idx) stats (materialize_entries idx 0 c.bits c.entries s)

-- A machine function with no block is left alone.
unfoldable pub materialize_registers : Bool → List RegisterClass → Materialized
materialize_registers mf_empty stats =
    let start : Materialized = record { rmap = []; loads = []; next = 0 } in
    if mf_empty then start else materialize_classes 0 stats start

-- `views::enumerate` over the registers of one class in the map.
unfoldable pub enumerate_class : ℕ → ℕ → ℕ → RegisterMap → List Transfer
enumerate_class idx reg_idx bits [] = []
enumerate_class idx reg_idx bits ((reg, v) ∷ rest) =
    record { array = idx; element = reg_idx; variable = v; bits = bits }
    ∷ enumerate_class idx (suc reg_idx) bits rest

-- The transfers of `save_registers` and of `load_registers`, which walk alike: a save loads the
-- variable and stores the element, a load the other way round.
unfoldable pub transfers : ℕ → List RegisterClass → RegisterMap → List Transfer
transfers idx [] rmap = []
transfers idx (c ∷ stats) rmap =
    enumerate_class idx 0 c.bits (filter_if (λ r. has_key r.0 c) rmap)
    ++ transfers (suc idx) stats rmap

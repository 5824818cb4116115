-- ===== src/Lifter/Registers/Agree.antt =====
-- The transfers of `save_registers` and `load_registers` are those of `materialize_registers`.
use mathlib.Core.List.{append_assoc, append-nil}
use llvm_bleach.Base.{
  ℕ, suc, ◌≡◌, refl, sym, ap, ◌∙◌, false, List, [], ◌∷◌, ◌++◌, arith, ==_refl, All,
}
use llvm_bleach.Lifter.OrderedMap.{Ordered}
use llvm_bleach.Lifter.Stats.{RegisterClass, keys}
use llvm_bleach.Lifter.Registers.{
  Materialized, materialize_entries, materialize_classes, materialize_registers, enumerate_class,
  transfers,
}
use llvm_bleach.Lifter.Registers.Plans.{
  Foreign, Separate, own, AllIn, pairs, UnderNext, entries-Ordered, entries-own_foreign,
  entries-Grown,
}

AllIn-more : (k : ℕ) (ks : List ℕ) (es : List (ℕ × List ℕ)) → AllIn ks es → AllIn (k ∷ ks) es
AllIn-more k ks [] h = tt
AllIn-more k ks (e ∷ es) h = (ground arith, AllIn-more k ks es h.1)

AllIn-keys : (es : List (ℕ × List ℕ)) → AllIn (keys es) es
AllIn-keys [] = tt
AllIn-keys (e ∷ es) = (ground (arith, ==_refl e.0), AllIn-more e.0 (keys es) es (AllIn-keys es))

-- A class that is still to come has no part in the map.
abbrev Untouched : List RegisterClass → Materialized → Type 0
Untouched cs s = All (λ c. own c s.rmap ≡ []) cs

classes-own-Foreign :
    (c : RegisterClass) (idx : ℕ) (ds : List RegisterClass) (s : Materialized)
    → All (Foreign c) ds
    → own c (materialize_classes idx ds s).rmap ≡ own c s.rmap
unfolding materialize_classes
classes-own-Foreign c idx [] s h = refl
classes-own-Foreign c idx (d ∷ ds) s h =
    classes-own-Foreign c (suc idx) ds (materialize_entries idx 0 d.bits d.entries s) h.1
    ∙ entries-own_foreign c idx 0 d.bits d.entries s h.0

Untouched-entries :
    (c : RegisterClass) (idx : ℕ) (ds : List RegisterClass) (s : Materialized)
    → All (λ d. Foreign d c) ds
    → Untouched ds s
    → Untouched ds (materialize_entries idx 0 c.bits c.entries s)
Untouched-entries c idx [] s h u = tt
Untouched-entries c idx (d ∷ ds) s h u =
    (entries-own_foreign d idx 0 c.bits c.entries s h.0 ∙ u.0, Untouched-entries c idx ds s h.1 u.1)

UnderNext-nil : (es : List (ℕ × List ℕ)) → UnderNext es []
UnderNext-nil [] = tt
UnderNext-nil (e ∷ es) = tt

classes-transfers :
    (idx : ℕ) (cs : List RegisterClass) (s : Materialized)
    → Separate cs
    → Ordered s.rmap
    → Untouched cs s
    → let final = materialize_classes idx cs s in
      final.loads ≡ s.loads ++ transfers idx cs final.rmap
unfolding materialize_classes transfers
classes-transfers idx [] s sep o u = sym (append-nil s.loads)
classes-transfers idx (c ∷ cs) s sep o u =
    let s1 = materialize_entries idx 0 c.bits c.entries s in
    let final = materialize_classes (suc idx) cs s1 in
    let under : UnderNext c.entries (own c s.rmap) = rw u.0 (UnderNext-nil c.entries) in
    let g = entries-Grown c idx 0 c.entries s sep.0.0 (AllIn-keys c.entries) sep.0.1 o under in
    let rest =
      classes-transfers (suc idx) cs s1 sep.3 (entries-Ordered idx 0 c.bits c.entries s o)
        (Untouched-entries c idx cs s sep.2 u.1) in
    let mine : own c final.rmap ≡ pairs c.entries s.next =
      classes-own-Foreign c (suc idx) cs s1 sep.1
      ∙ g.kept
      ∙ ap (λ m. m ++ pairs c.entries s.next) u.0 in
    rest
    ∙ ap (λ l. l ++ transfers (suc idx) cs final.rmap) g.loaded
    ∙ append_assoc s.loads (enumerate_class idx 0 c.bits (pairs c.entries s.next))
        (transfers (suc idx) cs final.rmap)
    ∙ ap (λ m. s.loads ++ (enumerate_class idx 0 c.bits m ++ transfers (suc idx) cs final.rmap))
        (sym mine)

empty-Untouched :
    (cs : List RegisterClass) → Untouched cs (record { rmap = []; loads = []; next = 0 })
empty-Untouched [] = tt
empty-Untouched (c ∷ cs) = (refl, empty-Untouched cs)

-- For separate classes the saves and the later loads of a function go over exactly the elements and
-- variables that its first loads went over, in the same order: the numbering of a class's registers
-- in the map agrees with their numbering in the class.
pub materialize-transfers :
    (stats : List RegisterClass)
    → Separate stats
    → let m = materialize_registers false stats in transfers 0 stats m.rmap ≡ m.loads
unfolding materialize_registers
materialize-transfers stats sep = sym (
    classes-transfers 0 stats (record { rmap = []; loads = []; next = 0 }) sep tt
      (empty-Untouched stats))

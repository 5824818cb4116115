-- ===== src/Lifter/Registers/Distinct.antt =====
-- Materialization uses every local variable once and every element of the state once.
use mathlib.Core.List.{append_assoc, append-nil}
use llvm_bleach.Base.{
  ℕ, suc, ◌+◌, ◌≤◌, ◌<◌, ◌≡◌, ◌⊎◌, refl, sym, ap, ◌∙◌, subst, inl, inr, false, List, [], ◌∷◌, ◌++◌,
  arith, All, length,
}
use llvm_bleach.Lifter.Stats.{RegisterClass}
use llvm_bleach.Lifter.Registers.{
  Transfer, Materialized, RegisterMap, materialize_entries, materialize_classes,
  materialize_registers, enumerate_class,
}
use llvm_bleach.Lifter.Registers.Plans.{pairs}
use llvm_bleach.Lifter.Registers.Effects.{
  OtherVar, OtherSlot, DistinctVars, DistinctSlots, VarsFrom,
}

-- The loads of the classes, with no accumulator.
abbrev loads_of : ℕ → ℕ → List RegisterClass → List Transfer
loads_of idx n [] = []
loads_of idx n (c ∷ cs) =
    enumerate_class idx 0 c.bits (pairs c.entries n) ++ loads_of (suc idx) (n + length c.entries) cs

entries-loads :
    (idx ri bits : ℕ) (es : List (ℕ × List ℕ)) (s : Materialized)
    → (materialize_entries idx ri bits es s).loads
      ≡ s.loads ++ enumerate_class idx ri bits (pairs es s.next)
unfolding materialize_entries enumerate_class
entries-loads idx ri bits [] s = sym (append-nil s.loads)
entries-loads idx ri bits ((r, subs) ∷ es) s =
    entries-loads idx (suc ri) bits es _
    ∙ append_assoc s.loads
        (record { array = idx; element = ri; variable = s.next; bits = bits } ∷ [])
        (enumerate_class idx (suc ri) bits (pairs es (suc s.next)))

entries-next :
    (idx ri bits : ℕ) (es : List (ℕ × List ℕ)) (s : Materialized)
    → (materialize_entries idx ri bits es s).next ≡ s.next + length es
unfolding materialize_entries
entries-next idx ri bits [] s = omega arith
entries-next idx ri bits ((r, subs) ∷ es) s = entries-next idx (suc ri) bits es _ ∙ omega arith

classes-loads :
    (idx : ℕ) (cs : List RegisterClass) (s : Materialized)
    → (materialize_classes idx cs s).loads ≡ s.loads ++ loads_of idx s.next cs
unfolding materialize_classes
classes-loads idx [] s = sym (append-nil s.loads)
classes-loads idx (c ∷ cs) s =
    let s1 = materialize_entries idx 0 c.bits c.entries s in
    classes-loads (suc idx) cs s1
    ∙ ap (λ l. l ++ loads_of (suc idx) s1.next cs) (entries-loads idx 0 c.bits c.entries s)
    ∙ append_assoc s.loads (enumerate_class idx 0 c.bits (pairs c.entries s.next))
        (loads_of (suc idx) s1.next cs)
    ∙ ap
        (λ n.
          s.loads
          ++ (enumerate_class idx 0 c.bits (pairs c.entries s.next) ++ loads_of (suc idx) n cs))
        (entries-next idx 0 c.bits c.entries s)

enumerate-VarsFrom :
    (idx ri bits n : ℕ) (es : List (ℕ × List ℕ)) (rest : List Transfer)
    → VarsFrom (n + length es) rest
    → VarsFrom n (enumerate_class idx ri bits (pairs es n) ++ rest)
unfolding enumerate_class
enumerate-VarsFrom idx ri bits n [] rest h = subst (λ k. VarsFrom k rest) (omega arith) h
enumerate-VarsFrom idx ri bits n (e ∷ es) rest h = (
  refl,
  enumerate-VarsFrom idx (suc ri) bits (suc n) es rest (
      let e' : n + suc (length es) ≡ suc n + length es = omega arith in
      subst (λ k. VarsFrom k rest) e' h),
)

loads_of-VarsFrom : (idx n : ℕ) (cs : List RegisterClass) → VarsFrom n (loads_of idx n cs)
loads_of-VarsFrom idx n [] = tt
loads_of-VarsFrom idx n (c ∷ cs) =
    enumerate-VarsFrom idx 0 c.bits n c.entries _
      (loads_of-VarsFrom (suc idx) (n + length c.entries) cs)

VarsFrom-other : (n v : ℕ) (ts : List Transfer) → v < n → VarsFrom n ts → All (OtherVar v) ts
VarsFrom-other n v [] h k = tt
VarsFrom-other n v (t ∷ ts) h k =
    let e = k.0 in ((λ same. omega arith), VarsFrom-other (suc n) v ts (omega arith) k.1)

VarsFrom-distinct : (n : ℕ) (ts : List Transfer) → VarsFrom n ts → DistinctVars ts
VarsFrom-distinct n [] h = tt
VarsFrom-distinct n (t ∷ ts) h =
    let e = h.0 in
    (VarsFrom-other (suc n) t.variable ts (omega arith) h.1, VarsFrom-distinct (suc n) ts h.1)

-- The elements rise, array by array.
abbrev Behind : ℕ → ℕ → Transfer → Type 0
Behind a e t = (a < t.array) ⊎ ((a ≡ t.array) × (e ≤ t.element))

abbrev Rising : ℕ → ℕ → List Transfer → Type 0
Rising a e [] = Unit
Rising a e (t ∷ ts) = Behind a e t × Rising t.array (suc t.element) ts

Behind-mono :
    (a e : ℕ) (t u : Transfer) → Behind a e t → Behind t.array (suc t.element) u → Behind a e u
Behind-mono a e t u (inl h) (inl k) = inl (omega arith)
Behind-mono a e t u (inl h) (inr k) = inl (omega (arith, k.0))
Behind-mono a e t u (inr h) (inl k) = inl (omega (arith, h.0))
Behind-mono a e t u (inr h) (inr k) = inr (h.0 ∙ k.0, omega (arith, h.1, k.1))

Rising-Behind : (a e : ℕ) (ts : List Transfer) → Rising a e ts → All (Behind a e) ts
Rising-Behind a e [] h = tt
Rising-Behind a e (t ∷ ts) h = (h.0, all ts (Rising-Behind t.array (suc t.element) ts h.1))
  where
    all : (us : List Transfer) → All (Behind t.array (suc t.element)) us → All (Behind a e) us
    all [] k = tt
    all (u ∷ us) k = (Behind-mono a e t u h.0 k.0, all us k.1)

Behind-OtherSlot : (t u : Transfer) → Behind t.array (suc t.element) u → OtherSlot t u
Behind-OtherSlot t u (inl h) = ground arith
Behind-OtherSlot t u (inr h) = let le = h.1 in ground arith

Rising-distinct : (a e : ℕ) (ts : List Transfer) → Rising a e ts → DistinctSlots ts
Rising-distinct a e [] h = tt
Rising-distinct a e (t ∷ ts) h = (
  others ts (Rising-Behind t.array (suc t.element) ts h.1),
  Rising-distinct t.array (suc t.element) ts h.1,
)
  where
    others : (us : List Transfer) → All (Behind t.array (suc t.element)) us → All (OtherSlot t) us
    others [] k = tt
    others (u ∷ us) k = (Behind-OtherSlot t u k.0, others us k.1)

Rising-next : (a e : ℕ) (ts : List Transfer) → Rising (suc a) 0 ts → Rising a e ts
Rising-next a e [] h = tt
Rising-next a e (t ∷ ts) (inl h, k) = (inl (omega arith), k)
Rising-next a e (t ∷ ts) (inr h, k) = (inl (omega (arith, h.0)), k)

enumerate-Rising :
    (idx ri bits : ℕ) (m : RegisterMap) (rest : List Transfer)
    → Rising (suc idx) 0 rest
    → Rising idx ri (enumerate_class idx ri bits m ++ rest)
unfolding enumerate_class
enumerate-Rising idx ri bits [] rest h = Rising-next idx ri rest h
enumerate-Rising idx ri bits ((r, v) ∷ m) rest h =
    (inr (refl, omega arith), enumerate-Rising idx (suc ri) bits m rest h)

loads_of-Rising : (idx n : ℕ) (cs : List RegisterClass) → Rising idx 0 (loads_of idx n cs)
loads_of-Rising idx n [] = tt
loads_of-Rising idx n (c ∷ cs) =
    enumerate-Rising idx 0 c.bits (pairs c.entries n) _
      (loads_of-Rising (suc idx) (n + length c.entries) cs)

-- Of the first loads of a function, no two have a variable or an element in common.
pub materialize-distinct :
    (stats : List RegisterClass)
    → let m = materialize_registers false stats in DistinctVars m.loads × DistinctSlots m.loads
unfolding materialize_registers
materialize-distinct stats =
    let e = classes-loads 0 stats (record { rmap = []; loads = []; next = 0 }) in
    (
      subst DistinctVars (sym e)
          (VarsFrom-distinct 0 (loads_of 0 0 stats) (loads_of-VarsFrom 0 0 stats)),
      subst DistinctSlots (sym e)
          (Rising-distinct 0 0 (loads_of 0 0 stats) (loads_of-Rising 0 0 stats)),
    )

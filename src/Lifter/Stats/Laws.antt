-- ===== src/Lifter/Stats/Laws.antt =====
-- Collecting the registers of machine functions keeps the classes in order, and misses no register.
use llvm_bleach.Base.{
  ℕ, ◌≡◌, refl, inl, inr, true, List, [], ◌∷◌, Result, ok, err, any_of, is_contained, All,
  Bool-cases, arith, Ensures, Ensures-bind,
}
use llvm_bleach.Lifter.OrderedMap.{try_emplace, Ordered, Ordered-try_emplace}
use llvm_bleach.Lifter.Stats.{
  RegisterClass, keys, has_key, add_reg, StatsError, Target, add_to_matching,
  collect_register_stats_for, collect_functions_stats,
}

keys-try_emplace :
    (k : ℕ) (m : List (ℕ × List ℕ)) → is_contained k (keys (try_emplace k [] m)) ≡ true
unfolding try_emplace
keys-try_emplace k [] = ground arith
keys-try_emplace k (e ∷ m) = ground (arith, keys-try_emplace k m)

keys-try_emplace_keeps :
    (j k : ℕ) (m : List (ℕ × List ℕ))
    → is_contained j (keys m) ≡ true
    → is_contained j (keys (try_emplace k [] m)) ≡ true
unfolding try_emplace
keys-try_emplace_keeps j k [] h = ground arith
keys-try_emplace_keeps j k (e ∷ m) h = ground (arith, keys-try_emplace_keeps j k m)

-- The registers of every class are in order.
abbrev pub AllOrdered : List RegisterClass → Type 0
AllOrdered stats = All (λ c. Ordered c.entries) stats

-- Some class has the register as a key.
abbrev pub Covered : List RegisterClass → ℕ → Type 0
Covered stats r = any_of (has_key r) stats ≡ true

-- `out` is in order, and has every register that `stats` has.
record Kept (stats out : List RegisterClass) : Type 0 where
  ordered : AllOrdered out
  keeps : (j : ℕ) → Covered stats j → Covered out j

Kept-cons :
    (c : RegisterClass) (cs out : List RegisterClass)
    → Ordered c.entries
    → Kept cs out
    → Kept (c ∷ cs) (c ∷ out)
Kept-cons c cs out o k = record {
  ordered = (o, k.ordered);
  keeps = λ j h. (let rest = k.keeps j in ground (arith, rest));
}

Kept-add_reg :
    (r : ℕ) (c : RegisterClass) (cs : List RegisterClass)
    → AllOrdered (c ∷ cs)
    → Kept (c ∷ cs) (add_reg r c ∷ cs)
unfolding add_reg
Kept-add_reg r c cs o = record {
  ordered = (Ordered-try_emplace r [] c.entries o.0, o.1);
  keeps = λ j h. ground (arith, keys-try_emplace_keeps j r c.entries);
}

add_reg-Covered :
    (r : ℕ) (c : RegisterClass) (cs : List RegisterClass) → Covered (add_reg r c ∷ cs) r
unfolding add_reg
add_reg-Covered r c cs = rw (keys-try_emplace r c.entries) refl

All-mono : (P Q : ℕ → Type 0) (rs : List ℕ) → ((r : ℕ) → P r → Q r) → All P rs → All Q rs
All-mono P Q [] f h = tt
All-mono P Q (r ∷ rs) f h = (f r h.0, All-mono P Q rs f h.1)

module _ (target : Target) where
  add_to_matching-Kept :
      (r : ℕ) (cs : List RegisterClass)
      → AllOrdered cs
      → Ensures (λ out. Kept cs out × Covered out r) (add_to_matching target r cs)
  unfolding add_to_matching
  add_to_matching-Kept r [] o = tt
  add_to_matching-Kept r (c ∷ cs) o =
      elim (Bool-cases (target.matches c.regex (target.asm_name r))) [
        | inl e ↦ rw e (Kept-add_reg r c cs o, add_reg-Covered r c cs)
        | inr e ↦ rw e (
            Ensures-bind (λ out. Kept cs out × Covered out r)
              (λ out. Kept (c ∷ cs) out × Covered out r) (add_to_matching target r cs) _
              (add_to_matching-Kept r cs o.1)
              (λ out h. (Kept-cons c cs out o.0 h.0, (let k = h.1 in ground arith))))
      ]

  collect-Kept :
      (regs : List ℕ) (stats : List RegisterClass)
      → AllOrdered stats
      → Ensures
          (λ out. Kept stats out × All (Covered out) regs)
          (collect_register_stats_for target regs stats)
  unfolding collect_register_stats_for
  collect-Kept [] stats o = (record { ordered = o; keeps = λ j h. h }, tt)
  collect-Kept (r ∷ regs) stats o =
      Ensures-bind (λ out. Kept stats out × Covered out r) _ (add_to_matching target r stats) _
        (add_to_matching-Kept r stats o)
        (λ s1 h.
          more s1 h (collect_register_stats_for target regs s1) (collect-Kept regs s1 h.0.ordered))
    where
      more :
          (s1 : List RegisterClass)
          → Kept stats s1 × Covered s1 r
          → (m : Result StatsError (List RegisterClass))
          → Ensures (λ out. Kept s1 out × All (Covered out) regs) m
          → Ensures (λ out. Kept stats out × All (Covered out) (r ∷ regs)) m
      more s1 h (err x) k = tt
      more s1 h (ok out) k = (
        record { ordered = k.0.ordered; keeps = λ j c. k.0.keeps j (h.0.keeps j c) },
        (k.0.keeps r h.1, k.1),
      )

  functions-Kept :
      (functions : List (List ℕ)) (stats : List RegisterClass)
      → AllOrdered stats
      → Ensures
          (λ out. Kept stats out × All (λ regs. All (Covered out) regs) functions)
          (collect_functions_stats target functions stats)
  unfolding collect_functions_stats
  functions-Kept [] stats o = (record { ordered = o; keeps = λ j h. h }, tt)
  functions-Kept (regs ∷ functions) stats o =
      Ensures-bind (λ out. Kept stats out × All (Covered out) regs) _
        (collect_register_stats_for target regs stats) _ (collect-Kept regs stats o)
        (λ s1 h.
          more s1 h (collect_functions_stats target functions s1)
            (functions-Kept functions s1 h.0.ordered))
    where
      more :
          (s1 : List RegisterClass)
          → Kept stats s1 × All (Covered s1) regs
          → (m : Result StatsError (List RegisterClass))
          → Ensures (λ out. Kept s1 out × All (λ rs. All (Covered out) rs) functions) m
          → Ensures (λ out. Kept stats out × All (λ rs. All (Covered out) rs) (regs ∷ functions)) m
      more s1 h (err x) k = tt
      more s1 h (ok out) k = (
        record { ordered = k.0.ordered; keeps = λ j c. k.0.keeps j (h.0.keeps j c) },
        (All-mono (Covered s1) (Covered out) regs k.0.keeps h.1, k.1),
      )

  -- Going over the register operands of all functions, from classes whose registers are in order,
  -- gives classes whose registers are in order and among which every one of the operands has a class
  -- that holds it; or an error is reported.
  pub collect_functions_stats-Covered :
      (functions : List (List ℕ)) (stats : List RegisterClass)
      → AllOrdered stats
      → Ensures
          (λ out. AllOrdered out × All (λ regs. All (Covered out) regs) functions)
          (collect_functions_stats target functions stats)
  collect_functions_stats-Covered functions stats o =
      weaken (collect_functions_stats target functions stats) (functions-Kept functions stats o)
    where
      weaken :
          (m : Result StatsError (List RegisterClass))
          → Ensures (λ out. Kept stats out × All (λ regs. All (Covered out) regs) functions) m
          → Ensures (λ out. AllOrdered out × All (λ regs. All (Covered out) regs) functions) m
      weaken (err x) h = tt
      weaken (ok out) h = (h.0.ordered, h.1)

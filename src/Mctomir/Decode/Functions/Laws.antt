-- ===== src/Mctomir/Decode/Functions/Laws.antt =====
-- The functions that are made of the symbols, and their order (lib/mctomir/mctomir-transform.cpp,
-- `process_disassembly`).
use mathlib.Core.List.{Perm, append_assoc, append-nil}
use mathlib.Core.List.Perm
use text.Mathlib.Text.{◌==◌ as str_eq}
use llvm_bleach.Base.{
  ℕ, ◌≤◌, ◌≡◌, refl, sym, ap, ◌∙◌, inl, inr, ◌⊎◌, true, false, String, List, [], ◌∷◌, ◌++◌, none,
  some, ok, leb, add64, arith, Bool-cases, Option-cases, All,
}
use llvm_bleach.Mctomir.Inst.{TranslatedFunction}
use llvm_bleach.Mctomir.Decode.Functions.{
  SymbolType, Symbol, new_function, named_code, push_function, collect_functions, insert_by_start,
  sort_by_start, find_functions,
}

-- The starts rise along the list.
abbrev pub Sorted : List TranslatedFunction → Type 0
Sorted [] = Unit
Sorted (f ∷ []) = Unit
Sorted (f ∷ g ∷ fs) = (f.start ≤ g.start) × Sorted (g ∷ fs)

insert-perm :
    (f : TranslatedFunction) (fs : List TranslatedFunction) → Perm (insert_by_start f fs) (f ∷ fs)
unfolding insert_by_start
insert-perm f [] = Perm.refl _
insert-perm f (g ∷ gs) = elim (Bool-cases (leb f.start g.start)) [
  | inl e ↦ rw e (Perm.refl _)
  | inr e ↦ rw e (Perm.trans (Perm.cons g (insert-perm f gs)) (Perm.swap f g gs))
]

sort-perm : (fs : List TranslatedFunction) → Perm (sort_by_start fs) fs
unfolding sort_by_start
sort-perm [] = Perm.refl _
sort-perm (f ∷ fs) = Perm.trans (insert-perm f (sort_by_start fs)) (Perm.cons f (sort-perm fs))

insert-Sorted :
    (f : TranslatedFunction) (fs : List TranslatedFunction)
    → Sorted fs
    → Sorted (insert_by_start f fs)
unfolding insert_by_start
insert-Sorted f [] h = tt
insert-Sorted f (g ∷ []) h = ground arith
insert-Sorted f (g ∷ k ∷ fs) h = ground (arith, insert-Sorted f (k ∷ fs) h.1)

sort-Sorted : (fs : List TranslatedFunction) → Sorted (sort_by_start fs)
unfolding sort_by_start
sort-Sorted [] = tt
sort-Sorted (f ∷ fs) = insert-Sorted f (sort_by_start fs) (sort-Sorted fs)

-- The symbol `s` has the name `n`, which is not empty, and the address `a`, and it is the symbol of a
-- function or its type is unknown.
abbrev pub IsFunctionAt : Symbol → String → ℕ → Type 0
IsFunctionAt s n a =
    (s.name ≡ some n)
    × (str_eq n "" ≡ false)
    × ((s.type ≡ some SymbolType.function_type) ⊎ (s.type ≡ some SymbolType.unknown_type))
    × (s.value ≡ some a)

-- One of those is missing: a name, its characters, a type, a type of code, an address.
pub data IsNoFunction : Symbol → Type 0 where
  no_name : {s : Symbol} → s.name ≡ none → IsNoFunction s
  empty_name : {s : Symbol} {n : String} → s.name ≡ some n → str_eq n "" ≡ true → IsNoFunction s
  no_type : {s : Symbol} → s.type ≡ none → IsNoFunction s
  other_type : {s : Symbol} → s.type ≡ some SymbolType.other_type → IsNoFunction s
  no_value : {s : Symbol} → s.value ≡ none → IsNoFunction s

-- The functions that the symbols stand for, in the order of the symbols.
pub data FunctionsOf : List Symbol → List TranslatedFunction → Type 0 where
  finished : FunctionsOf [] []
  made :
      {s : Symbol} {ss : List Symbol} {fs : List TranslatedFunction} (n : String) (a : ℕ)
      → IsFunctionAt s n a
      → FunctionsOf ss fs
      → FunctionsOf (s ∷ ss) (
          record { insts = []; blocks = []; start = a; end = add64 a s.size; name = n; mfunc = 0 }
          ∷ fs)
  passed_over :
      {s : Symbol} {ss : List Symbol} {fs : List TranslatedFunction}
      → IsNoFunction s
      → FunctionsOf ss fs
      → FunctionsOf (s ∷ ss) fs

abbrev Reads : Symbol → Type 0
Reads s =
    ((n : String) × (a : ℕ) × (named_code s ≡ some (n, a)) × IsFunctionAt s n a)
    ⊎ ((named_code s ≡ none) × IsNoFunction s)

-- A symbol with a name and a type.
named_code-typed :
    (s : Symbol) (n : String) (t : SymbolType) → s.name ≡ some n → s.type ≡ some t → Reads s
unfolding named_code
named_code-typed s n t e₁ e₂ = elim (Option-cases s.value) [
  | inl e ↦ inr (rw (e₁, e₂, e) refl, IsNoFunction.no_value e)
  | inr (a, e) ↦ elim (Bool-cases (str_eq n "")) [
    | inl m ↦ inr (rw (e₁, e₂, e, m) refl, IsNoFunction.empty_name e₁ m)
    | inr m ↦ of_type t a e m e₂
  ]
]
  where
    of_type :
        (t : SymbolType) (a : ℕ)
        → s.value ≡ some a
        → str_eq n "" ≡ false
        → s.type ≡ some t
        → Reads s
    of_type SymbolType.function_type a e m e₂ =
        inl (n, a, rw (e₁, e₂, e, m) refl, (e₁, m, inl e₂, e))
    of_type SymbolType.unknown_type a e m e₂ =
        inl (n, a, rw (e₁, e₂, e, m) refl, (e₁, m, inr e₂, e))
    of_type SymbolType.other_type a e m e₂ =
        inr (rw (e₁, e₂, e, m) refl, IsNoFunction.other_type e₂)

named_code_lem : (s : Symbol) → Reads s
unfolding named_code
named_code_lem s = elim (Option-cases s.name) [
  | inl e ↦ inr (rw e refl, IsNoFunction.no_name e)
  | inr (n, e) ↦ elim (Option-cases s.type) [
    | inl e₁ ↦ inr (rw (e, e₁) refl, IsNoFunction.no_type e₁)
    | inr (t, e₁) ↦ named_code-typed s n t e e₁
  ]
]

collect_functions-FunctionsOf :
    (ss : List Symbol) (fs : List TranslatedFunction)
    → All (λ s. s.in_elf ≡ true) ss
    → (new : List TranslatedFunction) × (collect_functions ss fs ≡ ok (fs ++ new))
      × FunctionsOf ss new
unfolding collect_functions
collect_functions-FunctionsOf [] fs h = ([], ap ok (sym (append-nil fs)), FunctionsOf.finished)
collect_functions-FunctionsOf (s ∷ ss) fs h = elim (named_code_lem s) [
  | inl (n, a, e, is) ↦
      let f = new_function n a s.size in
      let (new, e₁, rest) = collect_functions-FunctionsOf ss (fs ++ f ∷ []) h.1 in
      (
        f ∷ new,
        rw (e, push_function, h.0) (e₁ ∙ ap ok (append_assoc fs (f ∷ []) new)),
        FunctionsOf.made n a is rest,
      )
  | inr (e, is) ↦
      let (new, e₁, rest) = collect_functions-FunctionsOf ss fs h.1 in
      (new, rw (e, push_function) e₁, FunctionsOf.passed_over is rest)
]

-- From the symbols of an ELF object exactly one function is made for each symbol that has a name
-- that is not empty, an address, and the type of a function or an unknown type, over the symbol's
-- range, and none for any other symbol; the functions, with those that were there before, are in
-- the order of their starts.
pub find_functions-Sorted :
    (symbols : List Symbol) (funcs : List TranslatedFunction)
    → All (λ s. s.in_elf ≡ true) symbols
    → (fs : List TranslatedFunction) × (new : List TranslatedFunction) × (find_functions symbols
          funcs
        ≡ ok fs)
      × FunctionsOf symbols new
      × Sorted fs
      × Perm fs (funcs ++ new)
unfolding find_functions
find_functions-Sorted symbols funcs h =
    let (new, e, read) = collect_functions-FunctionsOf symbols funcs h in
    let all = funcs ++ new in
    (sort_by_start all, new, rw e refl, read, sort-Sorted all, sort-perm all)

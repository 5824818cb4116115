-- ===== src/Lifter/Function/Symtab/Last.antt =====
-- The table of a lifted program holds for each address the last function that starts there
-- (lib/lifter/lifter.cpp, `fill_symtab_at`; lib/lifter/symtab.cpp).
use llvm_bleach.Base.{
  ℕ, ◌==◌, ◌≡◌, refl, sym, ap, subst, ◌∙◌, inl, inr, Bool, true, false, List, [], ◌∷◌, Option, none,
  some, ok, err, or_error, All, In, Bool-cases, Option-cases, ==_iff, ==_refl, ◌⊎◌, if◌then◌else◌,
}
use llvm_bleach.Formats.Symbols.{FileInfo, get_start_of}
use llvm_bleach.Runtime.Symtab.{
  SymtabError, find_symbol, symtab_lookup, add_all, first_for, or_else, lookup-add_all,
}
use llvm_bleach.Lifter.Function.{IrFunction, fill_symtab_at}

-- The function has no code, or there is a symbol for it.
abbrev pub HasSymbol : FileInfo → IrFunction → Type 0
HasSymbol finfo f = f.is_empty ≡ false → (addr : ℕ) × (get_start_of f.name finfo ≡ ok addr)

-- The start of a function, if it has code and a symbol.
abbrev pub start_of : FileInfo → IrFunction → Option ℕ
start_of finfo f =
    if f.is_empty then none else elim (get_start_of f.name finfo) [ ok a ↦ some a | err e ↦ none ]

-- The last of the functions that starts there.
abbrev last_at : FileInfo → ℕ → List IrFunction → Option ℕ
last_at finfo b [] = none
last_at finfo b (f ∷ funcs) =
    let rest = last_at finfo b funcs in
    or_else rest
      (elim (start_of finfo f) [ none ↦ none | some a ↦ if a == b then some f.address else none ])

or_else_assoc : (p q r : Option ℕ) → or_else (or_else p q) r ≡ or_else p (or_else q r)
or_else_assoc none q r = refl
or_else_assoc (some a) q r = refl

or_else_if :
    (c : Bool) (p : ℕ) (o : Option ℕ)
    → (if c then some p else o) ≡ or_else (if c then some p else none) o
or_else_if true p o = refl
or_else_if false p o = refl

fill_symtab-last :
    (b : ℕ) (funcs : List IrFunction) (finfo : FileInfo) (front : List (ℕ × ℕ))
    → All (HasSymbol finfo) funcs
    → (calls : List (ℕ × ℕ)) × (fill_symtab_at funcs finfo front ≡ ok calls)
      × (first_for b calls ≡ or_else (last_at finfo b funcs) (first_for b front))
unfolding fill_symtab_at
fill_symtab-last b [] finfo front h = (front, refl, refl)
fill_symtab-last b (f ∷ funcs) finfo front h = elim (Bool-cases f.is_empty) [
  | inl e ↦
      let (calls, made, first) = fill_symtab-last b funcs finfo front h.1 in
      (
        calls,
        rw e made,
        rw e (first ∙ sym (or_else_assoc (last_at finfo b funcs) none (first_for b front))),
      )
  | inr e ↦
      let (addr, known) = h.0 e in
      let (calls, made, first) = fill_symtab-last b funcs finfo ((addr, f.address) ∷ front) h.1 in
      (
        calls,
        rw (e, known) made,
        rw (e, known)
            (first
              ∙ ap (or_else (last_at finfo b funcs))
                  (or_else_if (addr == b) f.address (first_for b front))
              ∙ sym (
                  or_else_assoc (last_at finfo b funcs) (if addr == b then some f.address else none)
                    (first_for b front))),
      )
]

-- If every function with code has a symbol, the calls are made without an error. In a table that was
-- empty before they run, a lookup gives the last function with code whose symbol starts at the
-- address, and throws if there is none.
symtab_lookup-fill :
    (b : ℕ) (funcs : List IrFunction) (finfo : FileInfo)
    → All (HasSymbol finfo) funcs
    → (calls : List (ℕ × ℕ)) × (fill_symtab_at funcs finfo [] ≡ ok calls)
      × (symtab_lookup b (add_all calls [])
          ≡ or_error (last_at finfo b funcs) SymtabError.out_of_range)
unfolding find_symbol
symtab_lookup-fill b funcs finfo h =
    let (calls, made, first) = fill_symtab-last b funcs finfo [] h in
    (
      calls,
      made,
      lookup-add_all calls [] b
          ∙ ap (λ o. or_error o SymtabError.out_of_range) (first ∙ or_none (last_at finfo b funcs)),
    )
  where
    or_none : (o : Option ℕ) → or_else o none ≡ o
    or_none none = refl
    or_none (some p) = refl

-- No other function with code starts there.
abbrev pub OnlyAt : FileInfo → ℕ → IrFunction → List IrFunction → Type 0
OnlyAt finfo a g funcs = All (λ f. start_of finfo f ≡ some a → f ≡ g) funcs

last_at_only :
    (finfo : FileInfo) (a : ℕ) (g : IrFunction) (funcs : List IrFunction)
    → OnlyAt finfo a g funcs
    → (last_at finfo a funcs ≡ none) ⊎ (last_at finfo a funcs ≡ some g.address)
last_at_only finfo a g [] h = inl refl
last_at_only finfo a g (f ∷ funcs) h = elim (last_at_only finfo a g funcs h.1) [
  | inr e ↦ inr (rw e refl)
  | inl e ↦ elim (Option-cases (start_of finfo f)) [
    | inl n ↦ inl (rw (e, n) refl)
    | inr (c, n) ↦ elim (Bool-cases (c == a)) [
      | inl same ↦
          let at_a : start_of finfo f ≡ some a = n ∙ ap some ((==_iff c a).0 same) in
          inr (rw (e, n, same) (ap (λ x. some x.address) (h.0 at_a)))
      | inr other ↦ inl (rw (e, n, other) refl)
    ]
  ]
]

last_at-In :
    (finfo : FileInfo) (a : ℕ) (g : IrFunction) (funcs : List IrFunction)
    → start_of finfo g ≡ some a
    → In g funcs
    → OnlyAt finfo a g funcs
    → last_at finfo a funcs ≡ some g.address
last_at-In finfo a g [] s i h = absurd i
last_at-In finfo a g (f ∷ funcs) s (inl e) h = elim (last_at_only finfo a g funcs h.1) [
  | inl n ↦
      let starts : start_of finfo f ≡ some a = subst (λ x. start_of finfo x ≡ some a) e s in
      rw (n, starts, ==_refl a) (ap (λ x. some x.address) (sym e))
  | inr n ↦ rw n refl
]
last_at-In finfo a g (f ∷ funcs) s (inr i) h = rw (last_at-In finfo a g funcs s i h.1) refl

pub found_at :
    (g : IrFunction) (a : ℕ) (funcs : List IrFunction) (finfo : FileInfo)
    → All (HasSymbol finfo) funcs
    → In g funcs
    → start_of finfo g ≡ some a
    → OnlyAt finfo a g funcs
    → (calls : List (ℕ × ℕ)) × (fill_symtab_at funcs finfo [] ≡ ok calls)
      × (symtab_lookup a (add_all calls []) ≡ ok g.address)
found_at g a funcs finfo h i s only =
    let (calls, made, looked) = symtab_lookup-fill a funcs finfo h in
    (
      calls,
      made,
      looked ∙ ap (λ o. or_error o SymtabError.out_of_range) (last_at-In finfo a g funcs s i only),
    )

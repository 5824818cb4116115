-- ===== src/Lifter/Function/Symtab.antt =====
-- Which function the table of a lifted program gives for an address.
mod Last
use text.Mathlib.Text.{◌==◌ as str_eq}
use llvm_bleach.Base.{
  ℕ, ◌==◌, ◌≡◌, refl, sym, ap, subst, ◌∙◌, inl, inr, Bool, true, false, List, [], ◌∷◌, Option, none,
  some, Result, Result-cases, String, ok, err, or_error, All, All-imp, In, Bool-cases, Option-cases,
  ==_iff, ==_refl, ◌⊎◌, if◌then◌else◌,
}
use llvm_bleach.Formats.Symbols.{FunctionSymbol, FileInfo, SymbolError, get_start_of}
use llvm_bleach.Runtime.Symtab.{
  SymtabError, find_symbol, symtab_lookup, add_all, first_for, or_else, lookup-add_all,
}
use llvm_bleach.Lifter.Function.{IrFunction, fill_symtab_at}
use llvm_bleach.Lifter.Function.Symtab.Last.{HasSymbol, start_of, OnlyAt, found_at}

-- The first symbol with the name starts at `a`.
pub data StartsAt (name : String) (a : ℕ) : FileInfo → Type 0 where
  here :
      {s : FunctionSymbol} {info : FileInfo}
      → str_eq s.name name ≡ true
      → s.start ≡ a
      → StartsAt name a (s ∷ info)
  later :
      {s : FunctionSymbol} {info : FileInfo}
      → str_eq s.name name ≡ false
      → StartsAt name a info
      → StartsAt name a (s ∷ info)

get_start_of-StartsAt :
    (name : String) (a : ℕ) (info : FileInfo) → StartsAt name a info → get_start_of name info ≡ ok a
unfolding get_start_of
get_start_of-StartsAt name a [] h = elim h [ ]
get_start_of-StartsAt name a (s ∷ info) (StartsAt.here e starts) = rw e (ap ok starts)
get_start_of-StartsAt name a (s ∷ info) (StartsAt.later e h) =
    rw e (get_start_of-StartsAt name a info h)

StartsAt-get_start_of :
    (name : String) (a : ℕ) (info : FileInfo) → get_start_of name info ≡ ok a → StartsAt name a info
unfolding get_start_of
StartsAt-get_start_of name a [] h = cc
StartsAt-get_start_of name a (s ∷ info) h = elim (Bool-cases (str_eq s.name name)) [
  | inl e ↦
      let given : get_start_of name (s ∷ info) ≡ ok s.start = rw e refl in
      StartsAt.here e (same_ok s.start a (sym given ∙ h))
  | inr e ↦
      let passed : get_start_of name (s ∷ info) ≡ get_start_of name info = rw e refl in
      StartsAt.later e (StartsAt-get_start_of name a info (sym passed ∙ h))
]
  where
    same_ok : (b c : ℕ) → ◌≡◌ {A = Result SymbolError ℕ} (ok b) (ok c) → b ≡ c
    same_ok b c h = cc

start_of-ok :
    (f : IrFunction) (a : ℕ) (finfo : FileInfo)
    → start_of finfo f ≡ some a
    → (f.is_empty ≡ false) × (get_start_of f.name finfo ≡ ok a)
start_of-ok f a finfo h = elim (Bool-cases f.is_empty) [
  | inl e ↦
      let nowhere : start_of finfo f ≡ none = rw e refl in
      absurd (none_is_not_some (sym nowhere ∙ h))
  | inr e ↦ elim (Result-cases (get_start_of f.name finfo)) [
    | inl (b, k) ↦
        let there : start_of finfo f ≡ some b = rw (e, k) refl in
        (e, k ∙ ap ok (same_some b a (sym there ∙ h)))
    | inr (error, k) ↦
        let nowhere : start_of finfo f ≡ none = rw (e, k) refl in
        absurd (none_is_not_some (sym nowhere ∙ h))
  ]
]
  where
    none_is_not_some : {c : ℕ} → ◌≡◌ {A = Option ℕ} none (some c) → ⊥
    none_is_not_some h = cc

    same_some : (b c : ℕ) → some b ≡ some c → b ≡ c
    same_some b c h = cc

-- Every lifted function with code is found: if the first symbol with its name starts at `a`, all
-- functions with code have a symbol, and no other one starts there, the calls are made without an
-- error, and in a table that was empty before they run a lookup of `a` returns the address of its
-- code.
pub symtab_lookup-found :
    (g : IrFunction) (a : ℕ) (funcs : List IrFunction) (finfo : FileInfo)
    → All (λ f. f.is_empty ≡ false → (addr : ℕ) × StartsAt f.name addr finfo) funcs
    → In g funcs
    → g.is_empty ≡ false
    → StartsAt g.name a finfo
    → All (λ f. f.is_empty ≡ false → StartsAt f.name a finfo → f ≡ g) funcs
    → (calls : List (ℕ × ℕ)) × (fill_symtab_at funcs finfo [] ≡ ok calls)
      × (symtab_lookup a (add_all calls []) ≡ ok g.address)
symtab_lookup-found g a funcs finfo known i code starts only =
    found_at g a funcs finfo
      (All-imp (λ f. f.is_empty ≡ false → (addr : ℕ) × StartsAt f.name addr finfo) (HasSymbol finfo)
        funcs (λ f h e. let (addr, s) = h e in (addr, get_start_of-StartsAt f.name addr finfo s))
        known)
      i (rw (code, get_start_of-StartsAt g.name a finfo starts) refl)
      (All-imp (λ f. f.is_empty ≡ false → StartsAt f.name a finfo → f ≡ g)
        (λ f. start_of finfo f ≡ some a → f ≡ g) funcs is_only only)
  where
    is_only :
        (f : IrFunction)
        → (f.is_empty ≡ false → StartsAt f.name a finfo → f ≡ g)
        → start_of finfo f ≡ some a
        → f ≡ g
    is_only f h e =
        let (full, at_a) = start_of-ok f a finfo e in
        h full (StartsAt-get_start_of f.name a finfo at_a)

-- ===== src/Runtime/Symtab.antt =====
-- The table of lifted functions (lib/lifter/symtab.cpp): `bleach_symtab_add`, `bleach_symtab_lookup`.
use llvm_bleach.Base.{
  ℕ, ◌≡◌, refl, ap, ◌∙◌, inl, inr, true, false, List, [], ◌∷◌, Option, none, some, Result, or_error,
  ◌==◌, ==_iff, Option-cases, Bool, if◌then◌else◌,
}

pub data SymtabError : Type 0 where
  out_of_range : SymtabError

abbrev pub Symtab : Type 0
Symtab = List (ℕ × ℕ)

unfoldable pub find_symbol : ℕ → Symtab → Option ℕ
find_symbol addr [] = none
find_symbol addr ((a, ptr) ∷ t) = if a == addr then some ptr else find_symbol addr t

-- `try_emplace`: an address that is known keeps its function.
unfoldable pub symtab_add : ℕ → ℕ → Symtab → Symtab
symtab_add addr ptr t = elim (find_symbol addr t) [ some p ↦ t | none ↦ (addr, ptr) ∷ t ]

-- `symtab.at(addr)` throws.
unfoldable pub symtab_lookup : ℕ → Symtab → Result SymtabError ℕ
symtab_lookup addr t = or_error (find_symbol addr t) out_of_range

abbrev pub add_all : List (ℕ × ℕ) → Symtab → Symtab
add_all [] t = t
add_all ((a, p) ∷ cs) t = add_all cs (symtab_add a p t)

-- The first function that is added for an address.
abbrev pub first_for : ℕ → List (ℕ × ℕ) → Option ℕ
first_for b [] = none
first_for b ((a, p) ∷ cs) = if a == b then some p else first_for b cs

abbrev pub or_else : Option ℕ → Option ℕ → Option ℕ
or_else (some p) q = some p
or_else none q = q

or_none : (o : Option ℕ) → o ≡ or_else o none
or_none none = refl
or_none (some q) = refl

add_known : (a p q : ℕ) (t : Symtab) → find_symbol a t ≡ some q → symtab_add a p t ≡ t
unfolding symtab_add
add_known a p q t n = rw (n, symtab_add) refl

add_new : (a p : ℕ) (t : Symtab) → find_symbol a t ≡ none → symtab_add a p t ≡ (a, p) ∷ t
unfolding symtab_add
add_new a p t n = rw (n, symtab_add) refl

find_cons :
    (a p b : ℕ) (t : Symtab)
    → find_symbol b ((a, p) ∷ t) ≡ (if a == b then some p else find_symbol b t)
unfolding find_symbol
find_cons a p b t = refl

find-symtab_add :
    (a p b : ℕ) (t : Symtab)
    → find_symbol b (symtab_add a p t) ≡ or_else (find_symbol b t) (if a == b then some p else none)
find-symtab_add a p b t = elim (Option-cases (find_symbol a t)) [
  | inl n ↦
      ap (find_symbol b) (add_new a p t n)
      ∙ find_cons a p b t
      ∙ pick_new (a == b) (find_symbol b t) (λ same. subst_find b same n)
  | inr (q, n) ↦
      ap (find_symbol b) (add_known a p q t n)
      ∙ pick_known (a == b) (find_symbol b t) q (λ same. subst_find b same n)
]
  where
    subst_find : (b : ℕ) {o : Option ℕ} → a == b ≡ true → find_symbol a t ≡ o → find_symbol b t ≡ o
    subst_find b same n = rw (← (==_iff a b).0 same) n

    pick_new :
        (c : Bool) (o : Option ℕ)
        → (c ≡ true → o ≡ none)
        → (if c then some p else o) ≡ or_else o (if c then some p else none)
    pick_new true o f = rw (f refl) refl
    pick_new false o f = or_none o

    pick_known :
        (c : Bool) (o : Option ℕ) (q : ℕ)
        → (c ≡ true → o ≡ some q)
        → o ≡ or_else o (if c then some p else none)
    pick_known true o q f = rw (f refl) refl
    pick_known false o q f = or_none o

find-add_all :
    (cs : List (ℕ × ℕ)) (t : Symtab) (b : ℕ)
    → find_symbol b (add_all cs t) ≡ or_else (find_symbol b t) (first_for b cs)
find-add_all [] t b = or_none (find_symbol b t)
find-add_all ((a, p) ∷ cs) t b =
    find-add_all cs (symtab_add a p t) b
    ∙ ap (λ o. or_else o (first_for b cs)) (find-symtab_add a p b t)
    ∙ merge (find_symbol b t) (a == b)
  where
    merge :
        (o : Option ℕ) (c : Bool)
        → or_else (or_else o (if c then some p else none)) (first_for b cs)
          ≡ or_else o (if c then some p else first_for b cs)
    merge (some q) c = refl
    merge none true = refl
    merge none false = refl

-- After any additions a lookup returns the function that was first added for the address: that of the
-- table before, if it has one, else the first of the additions; it throws just if there is neither.
pub lookup-add_all :
    (cs : List (ℕ × ℕ)) (t : Symtab) (b : ℕ)
    → symtab_lookup b (add_all cs t)
      ≡ or_error (or_else (find_symbol b t) (first_for b cs)) out_of_range
unfolding symtab_lookup
lookup-add_all cs t b = ap (λ o. or_error o out_of_range) (find-add_all cs t b)

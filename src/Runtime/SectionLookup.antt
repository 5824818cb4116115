-- ===== src/Runtime/SectionLookup.antt =====
-- `bleach_try_get_real_addr_impl` (lib/lifter/section_intrinsics.cpp). `data` is an address of the host.
use llvm_bleach.Base.{
  ℕ, ◌+◌, ◌-◌, ◌^◌, ◌≤◌, ◌<◌, ◌≡◌, ◌⊎◌, refl, inl, inr, Bool, true, false, ◌&&◌, List, [], ◌∷◌,
  Option, none, some, arith, ltb, leb, All, Bool-cases, add64, sub64, if◌then◌else◌,
}

pub record BleachSection : Type 0 where
  pub host : ℕ
  pub start : ℕ
  pub size : ℕ

-- `(addr >= s->start) && (addr < s->start + s->size)`
abbrev pub hits : ℕ → BleachSection → Bool
hits addr s = leb s.start addr && ltb addr (add64 s.start s.size)

unfoldable pub try_get_real_addr : ℕ → List BleachSection → Option ℕ
try_get_real_addr addr [] = none
try_get_real_addr addr (s ∷ sections) =
    if hits addr s
    then some (add64 s.host (sub64 addr s.start))
    else try_get_real_addr addr sections

-- The address lies in the section.
abbrev pub Inside : ℕ → BleachSection → Type 0
Inside addr s = (s.start ≤ addr) × (addr < s.start + s.size)

-- The section ends below the end of the address space.
abbrev pub Fits : BleachSection → Type 0
Fits s = s.start + s.size < 2 ^ 64

-- `s` is the first section that the address lies in.
abbrev pub FirstInside : ℕ → BleachSection → List BleachSection → Type 0
FirstInside addr s [] = ⊥
FirstInside addr s (c ∷ rest) =
    ((c ≡ s) × Inside addr c) ⊎ ((¬ Inside addr c) × FirstInside addr s rest)

hits-Inside : (addr : ℕ) (s : BleachSection) → Fits s → hits addr s ≡ true → Inside addr s
hits-Inside addr s f h = ground arith

not-hits-Inside : (addr : ℕ) (s : BleachSection) → Fits s → hits addr s ≡ false → ¬ Inside addr s
not-hits-Inside addr s f h i = let lo = i.0 in let hi = i.1 in ground arith

-- For sections that fit into the address space: an address translates to the same offset in the host
-- data of the first section that it lies in, and to null if it lies in none.
pub try_get_real_addr_cases :
    (addr : ℕ) (sections : List BleachSection)
    → addr < 2 ^ 64
    → All Fits sections
    → ((s : BleachSection) × FirstInside addr s sections
        × (try_get_real_addr addr sections ≡ some (add64 s.host (addr - s.start))))
      ⊎ (All (λ s. ¬ Inside addr s) sections × (try_get_real_addr addr sections ≡ none))
unfolding try_get_real_addr
try_get_real_addr_cases addr [] b h = inr (tt, refl)
try_get_real_addr_cases addr (s ∷ sections) b h = elim (Bool-cases (hits addr s)) [
  | inl e ↦
      let i = hits-Inside addr s h.0 e in
      let lo : s.start ≤ addr = i.0 in
      let diff : sub64 addr s.start ≡ addr - s.start = omega arith in
      inl (s, inl (refl, i), rw (e, diff) refl)
  | inr e ↦
      let out = not-hits-Inside addr s h.0 e in
      elim (try_get_real_addr_cases addr sections b h.1) [
        | inl (t, f, r) ↦ inl (t, inr (out, f), rw e r)
        | inr (none_of, r) ↦ inr ((out, none_of), rw e r)
      ]
]

-- A section that reaches the end of the address space is never found: the end wraps round to zero, so
-- that no address of the section passes the test.
pub try_get_real_addr_wrap :
    (addr : ℕ) (s : BleachSection)
    → s.start + s.size ≡ 2 ^ 64
    → Inside addr s
    → try_get_real_addr addr (s ∷ []) ≡ none
unfolding try_get_real_addr
try_get_real_addr_wrap addr s e i =
    let wraps : add64 s.start s.size ≡ 0 = omega arith in
    let miss : hits addr s ≡ false = rw wraps (ground arith) in rw miss refl

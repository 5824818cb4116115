-- ===== src/Lifter/Clone/Numbers.antt =====
-- The clones of the blocks of a function have numbers of their own, in the order of the blocks.
use llvm_bleach.Base.{
  ℕ, suc, ◌≤◌, ◌==◌, ◌≡◌, refl, inl, inr, true, false, List, [], ◌∷◌, arith, is_contained,
  Bool-cases, ==_refl, if◌then◌else◌,
}
use llvm_bleach.Lifter.Clone.Replace.{Distinct}

-- The number of the clone of a block: the clones are numbered from `next` on, in order.
abbrev pub renumber : List ℕ → ℕ → ℕ → ℕ
renumber [] next y = y
renumber (id ∷ ids) next y = if y == id then next else renumber ids (suc next) y

-- The blocks have the numbers of their clones, in order.
abbrev pub Numbered : (ℕ → ℕ) → List ℕ → ℕ → Type 0
Numbered ren [] n = Unit
Numbered ren (id ∷ ids) n = (ren id ≡ n) × Numbered ren ids (suc n)

Numbered-skip :
    (id next n : ℕ) (ids all : List ℕ)
    → is_contained id ids ≡ false
    → Numbered (renumber all (suc next)) ids n
    → Numbered (renumber (id ∷ all) next) ids n
Numbered-skip id next n [] all c h = tt
Numbered-skip id next n (x ∷ ids) all c h =
    let other : x == id ≡ false = ground arith in
    (rw other h.0, Numbered-skip id next (suc n) ids all (ground arith) h.1)

pub Numbered-renumber :
    (ids : List ℕ) (next : ℕ) → Distinct ids → Numbered (renumber ids next) ids next
Numbered-renumber [] next d = tt
Numbered-renumber (id ∷ ids) next d = (
  rw (==_refl id) refl,
  Numbered-skip id next (suc next) ids ids d.0 (Numbered-renumber ids (suc next) d.1),
)

pub renumber_ge :
    (ids : List ℕ) (next y : ℕ) → is_contained y ids ≡ true → next ≤ renumber ids next y
renumber_ge [] next y c = cc
renumber_ge (id ∷ ids) next y c = elim (Bool-cases (y == id)) [
  | inl e ↦ rw e (omega arith)
  | inr e ↦
      let above : suc next ≤ renumber ids (suc next) y =
        renumber_ge ids (suc next) y (ground arith) in
      rw e (omega arith)
]

-- Two blocks have different clones.
pub renumber_inj :
    (ids : List ℕ) (next s t : ℕ)
    → is_contained s ids ≡ true
    → is_contained t ids ≡ true
    → renumber ids next s ≡ renumber ids next t
    → s ≡ t
renumber_inj [] next s t c k e = cc
renumber_inj (id ∷ ids) next s t c k e = elim (Bool-cases (s == id)) [
  | inl es ↦ elim (Bool-cases (t == id)) [
    | inl et ↦ ground arith
    | inr et ↦
        let same : next ≡ renumber ids (suc next) t = rw (es, et) at e in
        absurd (omega (arith, renumber_ge ids (suc next) t (ground arith), same))
  ]
  | inr es ↦ elim (Bool-cases (t == id)) [
    | inl et ↦
        let same : renumber ids (suc next) s ≡ next = rw (es, et) at e in
        absurd (omega (arith, renumber_ge ids (suc next) s (ground arith), same))
    | inr et ↦ renumber_inj ids (suc next) s t (ground arith) (ground arith) (rw (es, et) at e)
  ]
]

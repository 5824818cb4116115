-- ===== src/Lifter/OrderedMap.antt =====
-- `std::map<unsigned, …>`: entries with rising keys. `try_emplace` keeps an entry that is there.
use llvm_bleach.Base.{
  ℕ, ◌≤◌, ◌<◌, ◌≡◌, refl, sym, ap, ◌∙◌, inl, inr, Bool, true, false, List, [], ◌∷◌, ◌++◌, Option,
  none, some, arith, filter_if, ltb, ltb→lt, ◌==◌, ==_iff, All, Bool-cases, if◌then◌else◌,
}

p_differs : (p : ℕ → Bool) (a b : ℕ) → p a ≡ true → p b ≡ false → a == b ≡ false
p_differs p a b t f = elim (Bool-cases (a == b)) [
  | inr differ ↦ differ
  | inl same ↦ let e : a ≡ b = (==_iff a b).0 same in cc (ap p e)
]

module _ {ℓ} {V : Type ℓ} where
  unfoldable pub try_emplace : ℕ → V → List (ℕ × V) → List (ℕ × V)
  try_emplace k v [] = (k, v) ∷ []
  try_emplace k v (e ∷ m) =
      if ltb k e.0 then (k, v) ∷ e ∷ m else if k == e.0 then e ∷ m else e ∷ try_emplace k v m

  unfoldable pub at? : ℕ → List (ℕ × V) → Option V
  at? k [] = none
  at? k (e ∷ m) = if k == e.0 then some e.1 else at? k m

  -- The keys rise, above a bound.
  abbrev pub Above : ℕ → List (ℕ × V) → Type 0
  Above k [] = Unit
  Above k (e ∷ m) = (k < e.0) × Above e.0 m

  abbrev pub Ordered : List (ℕ × V) → Type 0
  Ordered [] = Unit
  Ordered (e ∷ m) = Above e.0 m

  Above-try_emplace :
      (k : ℕ) (v : V) (b : ℕ) (m : List (ℕ × V)) → b < k → Above b m → Above b (try_emplace k v m)
  unfolding try_emplace
  Above-try_emplace k v b [] h a = (h, tt)
  Above-try_emplace k v b (e ∷ m) h a = ground (arith, Above-try_emplace k v e.0 m)

  pub Ordered-try_emplace :
      (k : ℕ) (v : V) (m : List (ℕ × V)) → Ordered m → Ordered (try_emplace k v m)
  unfolding try_emplace
  Ordered-try_emplace k v [] h = tt
  Ordered-try_emplace k v (e ∷ m) h = ground (arith, Above-try_emplace k v e.0 m)

  pub Above-Ordered : (b : ℕ) (m : List (ℕ × V)) → Above b m → Ordered m
  Above-Ordered b [] a = tt
  Above-Ordered b (e ∷ m) a = a.1

  module _ (p : ℕ → Bool) where
    abbrev pub only : List (ℕ × V) → List (ℕ × V)
    only m = filter_if (λ e. p e.0) m

    -- A new key that is filtered out changes nothing of what is kept.
    pub only-try_emplace_out :
        (k : ℕ) (v : V) (m : List (ℕ × V)) → p k ≡ false → only (try_emplace k v m) ≡ only m
    unfolding try_emplace
    only-try_emplace_out k v [] h = rw h refl
    only-try_emplace_out k v (e ∷ m) h = ground (arith, only-try_emplace_out k v m)

    -- Behind a greater key nothing is kept, if what is kept is smaller.
    only-Above :
        (b k : ℕ) (m : List (ℕ × V)) → k ≤ b → Above b m → All (λ e. e.0 < k) (only m) → only m ≡ []
    only-Above b k [] h a l = refl
    only-Above b k (e ∷ m) h a l = elim (Bool-cases (p e.0)) [
      | inl t ↦
          let l' : (e.0 < k) × All (λ x. x.0 < k) (only m) = rw t at l in
          absurd (omega (arith, l'.0))
      | inr f ↦
          let l' : All (λ x. x.0 < k) (only m) = rw f at l in
          rw f (only-Above e.0 k m (omega arith) a.1 l')
    ]

    -- A key that is kept and above those that are kept so far comes at the end.
    pub only-try_emplace_in :
        (k : ℕ) (v : V) (m : List (ℕ × V))
        → Ordered m
        → p k ≡ true
        → All (λ e. e.0 < k) (only m)
        → only (try_emplace k v m) ≡ only m ++ (k, v) ∷ []
    unfolding try_emplace
    only-try_emplace_in k v [] o t l = rw t refl
    only-try_emplace_in k v (e ∷ m) o t l = elim (Bool-cases (ltb k e.0)) [
      | inl lt ↦
          let none_left : only (e ∷ m) ≡ [] =
            only-Above k k (e ∷ m) (omega arith) (ltb→lt k e.0 lt, o) l in
          rw lt (rw t (ap (◌∷◌ (k, v)) none_left ∙ sym (ap (λ x. x ++ (k, v) ∷ []) none_left)))
      | inr ge ↦ elim (Bool-cases (p e.0)) [
        | inl t' ↦
            let l' : (e.0 < k) × All (λ x. x.0 < k) (only m) = rw t' at l in
            let differs : k == e.0 ≡ false = ground arith in
            rw (ge, differs)
              (rw t' (ap (◌∷◌ e) (only-try_emplace_in k v m (Above-Ordered e.0 m o) t l'.1)))
        | inr f ↦
            let l' : All (λ x. x.0 < k) (only m) = rw f at l in
            let differs : k == e.0 ≡ false = p_differs p k e.0 t f in
            rw (ge, differs) (rw f (only-try_emplace_in k v m (Above-Ordered e.0 m o) t l'))
      ]
    ]

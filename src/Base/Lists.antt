-- ===== src/Base/Lists.antt =====
-- Lists measured and indexed by native numbers, and predicates and searches on them.
use Prim.Native.Nat.{ℕ, zero, suc, ◌+◌, ◌-◌, ◌≤◌, min}
use mathlib.Core.Path.{◌≡◌, refl, ap}
use mathlib.Core.Logic.{◌⊎◌}
use mathlib.Core.Bool.{Bool, true, false, ◌&&◌, ◌||◌}
use mathlib.Core.List.{List, [], ◌∷◌, ◌++◌, map}
use mathlib.Core.Option.{Option, none, some}
use native.Mathlib.Omega.{arith}
use llvm_bleach.Base.Tests.{◌==◌, if◌then◌else◌}

module _ {ℓ} {A : Type ℓ} where
  abbrev pub length : List A → ℕ
  length [] = 0
  length (x ∷ xs) = suc (length xs)

  abbrev pub get_elem? : List A → ℕ → Option A
  get_elem? [] i = none
  get_elem? (x ∷ xs) zero = some x
  get_elem? (x ∷ xs) (suc i) = get_elem? xs i

  abbrev pub drop : ℕ → List A → List A
  drop zero xs = xs
  drop (suc n) [] = []
  drop (suc n) (x ∷ xs) = drop n xs

  abbrev pub take : ℕ → List A → List A
  take zero xs = []
  take (suc n) [] = []
  take (suc n) (x ∷ xs) = x ∷ take n xs

  -- `std::find_if`: the first element that passes.
  abbrev pub find_if : (A → Bool) → List A → Option A
  find_if p [] = none
  find_if p (x ∷ xs) = if p x then some x else find_if p xs

  -- `views::filter`.
  abbrev pub filter_if : (A → Bool) → List A → List A
  filter_if p [] = []
  filter_if p (x ∷ xs) = let rest = filter_if p xs in if p x then x ∷ rest else rest

  abbrev pub any_of : (A → Bool) → List A → Bool
  any_of p [] = false
  any_of p (x ∷ xs) = p x || any_of p xs

  abbrev pub all_of : (A → Bool) → List A → Bool
  all_of p [] = true
  all_of p (x ∷ xs) = p x && all_of p xs

  -- Every element satisfies the predicate.
  abbrev pub All {κ} : (A → Type κ) → List A → Type κ
  All P [] = Unit
  All P (x ∷ xs) = P x × All P xs

  pub length-append : (xs ys : List A) → length (xs ++ ys) ≡ length xs + length ys
  length-append [] ys = omega arith
  length-append (x ∷ xs) ys = omega (arith, length-append xs ys)

  pub take-append-drop : (n : ℕ) (xs : List A) → take n xs ++ drop n xs ≡ xs
  take-append-drop zero xs = refl
  take-append-drop (suc n) [] = refl
  take-append-drop (suc n) (x ∷ xs) = ap (◌∷◌ x) (take-append-drop n xs)

  pub drop-drop : (m n k : ℕ) (xs : List A) → m + n ≡ k → drop n (drop m xs) ≡ drop k xs
  drop-drop zero n k xs e = let e' : n ≡ k = omega arith in rw e' refl
  drop-drop (suc m) zero k [] e = let e' : suc m ≡ k = omega arith in rw (← e') refl
  drop-drop (suc m) (suc n) zero [] e = absurd (omega arith)
  drop-drop (suc m) (suc n) (suc k) [] e = refl
  drop-drop (suc m) n zero (x ∷ xs) e = absurd (omega arith)
  drop-drop (suc m) n (suc k) (x ∷ xs) e = drop-drop m n k xs (omega arith)

  pub length-drop : (n : ℕ) (xs : List A) → length (drop n xs) ≡ length xs - n
  length-drop zero xs = omega arith
  length-drop (suc n) [] = omega arith
  length-drop (suc n) (x ∷ xs) = omega (arith, length-drop n xs)

  pub drop-eq_nil : (n : ℕ) (xs : List A) → length xs ≤ n → drop n xs ≡ []
  drop-eq_nil zero [] h = refl
  drop-eq_nil zero (x ∷ xs) h = absurd (omega arith)
  drop-eq_nil (suc n) [] h = refl
  drop-eq_nil (suc n) (x ∷ xs) h = drop-eq_nil n xs (omega arith)

  pub get_elem?-at :
      (before after : List A) (x : A) → get_elem? (before ++ x ∷ after) (length before) ≡ some x
  get_elem?-at [] after x = refl
  get_elem?-at (y ∷ before) after x = get_elem?-at before after x

  pub All-imp {κ μ} :
      (P : A → Type κ) (Q : A → Type μ) (xs : List A) → ((a : A) → P a → Q a) → All P xs → All Q xs
  All-imp P Q [] f h = tt
  All-imp P Q (x ∷ xs) f h = (f x h.0, All-imp P Q xs f h.1)

  pub All-append {κ} : (P : A → Type κ) (xs ys : List A) → All P xs → All P ys → All P (xs ++ ys)
  All-append P [] ys h k = k
  All-append P (x ∷ xs) ys h k = (h.0, All-append P xs ys h.1 k)

module _ {ℓ} {A : Type ℓ} where
  pub length-map {κ} : {B : Type κ} (xs : List A) (f : A → B) → length (map f xs) ≡ length xs
  length-map [] f = refl
  length-map (x ∷ xs) f = ap suc (length-map xs f)

  pub length-take-drop :
      (n i : ℕ) (xs : List A) → length (take n (drop i xs)) ≡ min n (length xs - i)
  length-take-drop n i xs = omega (arith, length-take n (drop i xs), length-drop i xs)
    where
      length-take : (k : ℕ) (ys : List A) → length (take k ys) ≡ min k (length ys)
      length-take zero ys = omega arith
      length-take (suc k) [] = omega arith
      length-take (suc k) (y ∷ ys) = omega (arith, length-take k ys)

-- Some element is the given one, at a position.
abbrev pub In : {A : Type 0} → A → List A → Type 0
In a [] = ⊥
In a (x ∷ xs) = (a ≡ x) ⊎ In a xs

-- Membership of a number in a list, as `is_contained` and the `contains` of the containers test it.
abbrev pub is_contained : ℕ → List ℕ → Bool
is_contained a [] = false
is_contained a (x ∷ xs) = a == x || is_contained a xs

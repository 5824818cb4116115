-- ===== src/Base/Outcome.antt =====
-- Results of code that fails by an `llvm::Error` or an exception.
use mathlib.Core.Path.{◌≡◌, refl, ap, subst}
use mathlib.Core.Logic.{◌⊎◌, inl, inr}
use mathlib.Core.Bool.{Bool, true, false}
use mathlib.Core.Option.{Option, none, some}
use llvm_bleach.Base.Tests.{if◌then◌else◌}

pub data Result {ℓ κ} (E : Type ℓ) (A : Type κ) : Type (ℓ ⊔ κ) where
  ok : A → Result E A
  err : E → Result E A

-- The value of an optional, or the error that the code raises without one.
abbrev pub or_error {ℓ κ} : {E : Type ℓ} {A : Type κ} → Option A → E → Result E A
or_error none why = err why
or_error (some x) why = ok x

-- An error as one of the errors of the caller.
abbrev pub map_error {ℓ κ μ} :
    {E : Type ℓ} {F : Type κ} {A : Type μ} → (E → F) → Result E A → Result F A
map_error wrap (ok a) = ok a
map_error wrap (err e) = err (wrap e)

infixl 5 ◌>>=◌
abbrev pub ◌>>=◌ {ℓ κ μ} :
    {E : Type ℓ} {A : Type κ} {B : Type μ} → Result E A → (A → Result E B) → Result E B
err why >>= next = err why
ok x >>= next = next x

pub >>=-eq-ok {ℓ κ μ} :
    {E : Type ℓ} {A : Type κ} {B : Type μ} {y : B} (r : Result E A) (next : A → Result E B)
    → (r >>= next) ≡ ok y
    → (x : A) × (r ≡ ok x) × (next x ≡ ok y)
>>=-eq-ok (err why) next done = cc
>>=-eq-ok (ok x) next done = (x, refl, done)

module _ {ℓ κ μ} {E : Type ℓ} {A : Type κ} {B : Type μ} where
  pub >>=_congr :
      (m : Result E A) (f g : A → Result E B) → ((a : A) → f a ≡ g a) → (m >>= f) ≡ (m >>= g)
  >>=_congr (ok a) f g h = h a
  >>=_congr (err e) f g h = refl

  pub >>=_assoc {ν} :
      {C : Type ν} (m : Result E A) (f : A → Result E B) (g : B → Result E C)
      → ((m >>= f) >>= g) ≡ (m >>= λ a. f a >>= g)
  >>=_assoc (ok a) f g = refl
  >>=_assoc (err e) f g = refl

-- The property of what is returned, if anything is.
abbrev pub Ensures {ℓ κ μ} : {E : Type ℓ} {A : Type κ} → (A → Type μ) → Result E A → Type μ
Ensures P (ok a) = P a
Ensures P (err e) = Unit

module _ {ℓ κ μ} {E : Type ℓ} {A : Type κ} (P : A → Type μ) where
  pub Ensures-bind {ν ξ} :
      {B : Type ν} (Q : B → Type ξ) (m : Result E A) (f : A → Result E B)
      → Ensures P m
      → ((a : A) → P a → Ensures Q (f a))
      → Ensures Q (m >>= f)
  Ensures-bind Q (ok a) f h k = k a h
  Ensures-bind Q (err e) f h k = tt

  pub Ensures-imp {ν} :
      (Q : A → Type ν) (m : Result E A) → ((a : A) → P a → Q a) → Ensures P m → Ensures Q m
  Ensures-imp Q (ok a) k h = k a h
  Ensures-imp Q (err e) k h = tt

  pub Ensures-ok : (m : Result E A) (a : A) → Ensures P m → m ≡ ok a → P a
  Ensures-ok m a h e = subst (Ensures P) e h

-- Whatever the first result is.
pub Ensures-always {ℓ κ μ ν} :
    {E : Type ℓ} {A : Type κ} {B : Type μ} (P : B → Type ν) (m : Result E A) (f : A → Result E B)
    → ((a : A) → Ensures P (f a))
    → Ensures P (m >>= f)
Ensures-always P (ok a) f k = k a
Ensures-always P (err e) f k = tt

pub Ensures-if {ℓ κ ν} :
    {E : Type ℓ} {A : Type κ} (P : A → Type ν) (c : Bool) (m n : Result E A)
    → Ensures P m
    → Ensures P n
    → Ensures P (if c then m else n)
Ensures-if P true m n h k = h
Ensures-if P false m n h k = k

-- A result of which nothing is asked.
pub Ensures-any {ℓ κ} : {E : Type ℓ} {A : Type κ} (m : Result E A) → Ensures (λ _. Unit {0}) m
Ensures-any (ok a) = tt
Ensures-any (err e) = tt

pub Ensures-map_error {ℓ κ μ ν} :
    {E : Type ℓ} {F : Type κ} {A : Type μ} (wrap : E → F) (P : A → Type ν) (m : Result E A)
    → Ensures P m
    → Ensures P (map_error wrap m)
Ensures-map_error wrap P (ok a) h = h
Ensures-map_error wrap P (err e) h = tt

-- Two results that fail alike, or whose values are related.
pub data Both {ℓ κ μ ν} {E : Type ℓ} {A : Type κ} {B : Type μ} (R : A → B → Type ν)
    : Result E A → Result E B → Type (ℓ ⊔ κ ⊔ μ ⊔ ν) where
  gave : {a : A} {b : B} → R a b → Both R (ok a) (ok b)
  failed : {e : E} → Both R (err e) (err e)

pub Both-bind {ℓ κ μ ν κ' μ' ν'} :
    {E : Type ℓ} {A : Type κ} {B : Type μ} {A' : Type κ'} {B' : Type μ'} {R : A → B → Type ν}
    {S : A' → B' → Type ν'} {r : Result E A} {s : Result E B} {f : A → Result E A'}
    {g : B → Result E B'}
    → Both R r s
    → ((a : A) (b : B) → R a b → Both S (f a) (g b))
    → Both S (r >>= f) (s >>= g)
Both-bind (Both.gave {a} {b} h) k = k a b h
Both-bind Both.failed k = Both.failed

module _ {ℓ κ μ μ' ν} {E : Type ℓ} {A : Type κ} {B : Type μ} {B' : Type μ'}
    {S : B → B' → Type ν} where
  pub Both-same :
      (r : Result E A) (f : A → Result E B) (g : A → Result E B')
      → ((a : A) → Both S (f a) (g a))
      → Both S (r >>= f) (r >>= g)
  Both-same (ok a) f g k = k a
  Both-same (err e) f g k = Both.failed

  pub Both-known :
      (r : Result E A) (f : A → Result E B) (g : A → Result E B')
      → ((a : A) → r ≡ ok a → Both S (f a) (g a))
      → Both S (r >>= f) (r >>= g)
  Both-known (ok a) f g k = k a refl
  Both-known (err e) f g k = Both.failed

pub Both-imp {ℓ κ μ ν ν'} :
    {E : Type ℓ} {A : Type κ} {B : Type μ} {R : A → B → Type ν} {S : A → B → Type ν'}
    {r : Result E A} {s : Result E B}
    → Both R r s
    → ((a : A) (b : B) → R a b → S a b)
    → Both S r s
Both-imp (Both.gave {a} {b} h) k = Both.gave (k a b h)
Both-imp Both.failed k = Both.failed

-- The second result is changed by a function.
pub Both-map {ℓ κ μ μ' ν ν'} :
    {E : Type ℓ} {A : Type κ} {B : Type μ} {B' : Type μ'} {R : A → B → Type ν}
    {S : A → B' → Type ν'} {r : Result E A} {s : Result E B} (g : B → B')
    → Both R r s
    → ((a : A) (b : B) → R a b → S a (g b))
    → Both S r (s >>= λ b. ok (g b))
Both-map g (Both.gave {a} {b} h) k = Both.gave (k a b h)
Both-map g Both.failed k = Both.failed

-- Results that are related by an equation are equal.
pub Both-equal {ℓ κ μ} :
    {E : Type ℓ} {A : Type κ} {B : Type μ} (g : A → B) {r : Result E A} {s : Result E B}
    → Both (λ a b. g a ≡ b) r s
    → (r >>= λ a. ok (g a)) ≡ s
Both-equal g (Both.gave h) = ap ok h
Both-equal g Both.failed = refl

pub Both-if {ℓ κ μ ν} :
    {E : Type ℓ} {A : Type κ} {B : Type μ} {R : A → B → Type ν} {r r' : Result E A}
    {s s' : Result E B} (c : Bool)
    → Both R r s
    → Both R r' s'
    → Both R (if c then r else r') (if c then s else s')
Both-if true h k = h
Both-if false h k = k

pub Result-cases {ℓ κ} :
    {E : Type ℓ} {A : Type κ} (r : Result E A) → ((a : A) × (r ≡ ok a)) ⊎ ((e : E) × (r ≡ err e))
Result-cases (ok a) = inl (a, refl)
Result-cases (err e) = inr (e, refl)

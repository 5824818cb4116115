-- ===== src/Lifter/Values/Reads.antt =====
-- Values as numbers when the emitted code runs, and code that only defines temporaries.
use llvm_bleach.Base.{ℕ, ◌%◌, ◌^◌, ◌≤◌, ◌<◌, ◌≡◌, refl, ◌∙◌, ap, arith, List, Option, none, some}
use llvm_bleach.Base.Int.{ℤ, pos, negsuc}
use llvm_bleach.Lifter.Registers.Effects.{Vars}
use llvm_bleach.Lifter.Values.{IrType, Value, Op, Builder, type_of, define_with, word}
use llvm_bleach.Lifter.Values.Machine.{Word}
use llvm_bleach.Lifter.Values.Run.{Frame, eval, step, run, run_snoc, set_temp}

-- A temporary that is defined already.
abbrev pub IsDefined : ℕ → Value → Type 0
IsDefined next (Value.const bits x) = Unit
IsDefined next (Value.temp t ty) = t < next

pub eval_same :
    (v : Value) (next : ℕ) (temps temps' : Vars)
    → IsDefined next v
    → ((t : ℕ) → t < next → temps' t ≡ temps t)
    → eval temps' v ≡ eval temps v
eval_same (Value.const bits x) next temps temps' h k = refl
eval_same (Value.temp t ty) next temps temps' h k = k t h

pub word_fits : (v : ℤ) → word v % 2 ^ 64 ≡ word v
word_fits (pos n) = omega arith
word_fits (negsuc n) = omega arith

pub mod_twice : (x m : ℕ) → x % m % m ≡ x % m
mod_twice x m = grind arith

module _ {M : Type 0} (apply : ℕ → List ℕ → M → ℕ × M) (start : Frame M) where
  -- Where a builder has come to.
  abbrev pub at_end : Builder → Frame M
  at_end b = run apply b.ops start

  -- What was emitted between two builders changes nothing that was there.
  pub record Extends (b b' : Builder) : Type 0 where
    pub grows : b.next ≤ b'.next
    pub same_cpu : (at_end b').cpu ≡ (at_end b).cpu
    pub same_temps : (t : ℕ) → t < b.next → (at_end b').temps t ≡ (at_end b).temps t
    pub same_tracker : b'.tracker ≡ b.tracker

  -- A value is a number of some width.
  pub record Means (b : Builder) (v : Value) (w : Word) : Type 0 where
    pub is_defined : IsDefined b.next v
    pub has_type : type_of v ≡ IrType.int w.bits
    pub has_value : eval (at_end b).temps v ≡ w.value
    pub fits : w.value % 2 ^ w.bits ≡ w.value

  abbrev pub MeansOption : Builder → Option Value → Option Word → Type 0
  MeansOption b none none = Unit
  MeansOption b (some v) (some w) = Means b v w
  MeansOption b _ _ = ⊥

  pub Extends-refl : (b : Builder) → Extends b b
  Extends-refl b = record {
    grows = omega arith;
    same_cpu = refl;
    same_temps = λ t h. refl;
    same_tracker = refl;
  }

  pub IsDefined-le : (v : Value) (m n : ℕ) → m ≤ n → IsDefined m v → IsDefined n v
  IsDefined-le (Value.const bits x) m n h d = tt
  IsDefined-le (Value.temp t ty) m n h d = omega (arith, h, d)

  pub Extends-trans : (a b c : Builder) → Extends a b → Extends b c → Extends a c
  Extends-trans a b c h k = record {
    grows = (let p = h.grows in let q = k.grows in omega arith);
    same_cpu = k.same_cpu ∙ h.same_cpu;
    same_temps = λ t l. k.same_temps t (let p = h.grows in omega arith) ∙ h.same_temps t l;
    same_tracker = k.same_tracker ∙ h.same_tracker;
  }

  pub Means-Extends :
      (b c : Builder) (v : Value) (w : Word) → Extends b c → Means b v w → Means c v w
  Means-Extends b c v w h m = record {
    is_defined = IsDefined-le v b.next c.next h.grows m.is_defined;
    has_type = m.has_type;
    fits = m.fits;
    has_value =
        eval_same v b.next (at_end b).temps (at_end c).temps m.is_defined h.same_temps
        ∙ m.has_value;
  }

  pub MeansOption-Extends :
      (b c : Builder) (v : Option Value) (w : Option Word)
      → Extends b c
      → MeansOption b v w
      → MeansOption c v w
  MeansOption-Extends b c none none h m = tt
  MeansOption-Extends b c (some v) (some w) h m = Means-Extends b c v w h m
  MeansOption-Extends b c none (some w) h m = m
  MeansOption-Extends b c (some v) none h m = m

  -- An operation whose step sets its temporary only.
  module _ (op : ℕ → Op) (b : Builder) (x : ℕ)
      (sets : step apply (op b.next) (at_end b) ≡ set_temp b.next x (at_end b)) where
    at_end-define_with : at_end (define_with op b) ≡ set_temp b.next x (at_end b)
    at_end-define_with = run_snoc apply b.ops (op b.next) start ∙ sets

    pub Extends-define_with : Extends b (define_with op b)
    Extends-define_with = record {
      grows = omega arith;
      same_cpu = ap (λ s. s.cpu) at_end-define_with;
      same_temps = λ t h. ap (λ s. s.temps t) at_end-define_with ∙ ground arith;
      same_tracker = refl;
    }

    pub temps-define_with : (at_end (define_with op b)).temps b.next ≡ x
    temps-define_with = ap (λ s. s.temps b.next) at_end-define_with ∙ ground arith

    pub Means-define_with :
        (bits : ℕ)
        → x % 2 ^ bits ≡ x
        → Means
            (define_with op b)
            (Value.temp b.next (IrType.int bits))
            (record { bits = bits; value = x })
    Means-define_with bits h = record {
      is_defined = omega arith;
      has_type = refl;
      has_value = temps-define_with;
      fits = h;
    }

-- ===== src/Lifter/Registers/Plans.antt =====
-- Saving walks over the same elements and variables as materialization did, in the same order.
use mathlib.Core.List.{append_assoc, append-nil}
use llvm_bleach.Base.{
  ℕ, suc, ◌<◌, ◌≡◌, refl, sym, ap, ◌∙◌, true, false, List, [], ◌∷◌, ◌++◌, arith, is_contained, All,
  All-append,
}
use llvm_bleach.Lifter.OrderedMap.{
  try_emplace, Ordered, Above, only, Ordered-try_emplace, only-try_emplace_out, only-try_emplace_in,
}
use llvm_bleach.Lifter.Stats.{RegisterClass, keys, has_key}
use llvm_bleach.Lifter.Registers.{
  Transfer, RegisterMap, Materialized, emplace_all, materialize_entries, enumerate_class,
}

-- All registers of some entries: the keys and their subregisters.
abbrev pub registers : List (ℕ × List ℕ) → List ℕ
registers [] = []
registers (e ∷ es) = e.0 ∷ (e.1 ++ registers es)

abbrev pub NoneIn : List ℕ → List ℕ → Type 0
NoneIn ks rs = All (λ r. is_contained r ks ≡ false) rs

-- No key of `c` is a register of `d`.
abbrev pub Foreign : RegisterClass → RegisterClass → Type 0
Foreign c d = NoneIn (keys c.entries) (registers d.entries)

abbrev pub subregisters : List (ℕ × List ℕ) → List ℕ
subregisters [] = []
subregisters (e ∷ es) = e.1 ++ subregisters es

-- The keys of a class are in order, and none is a subregister of the class.
abbrev pub IsProper : RegisterClass → Type 0
IsProper c = Ordered c.entries × NoneIn (keys c.entries) (subregisters c.entries)

-- The classes are proper, and no key of one is a register of another.
abbrev pub Separate : List RegisterClass → Type 0
Separate [] = Unit
Separate (c ∷ cs) = IsProper c × All (Foreign c) cs × All (λ d. Foreign d c) cs × Separate cs

abbrev pub own : RegisterClass → RegisterMap → RegisterMap
own c rmap = only (λ r. has_key r c) rmap

-- Registers that are no keys of a class leave its part of the map alone.
emplace_all-own :
    (c : RegisterClass) (rs : List ℕ) (v : ℕ) (rmap : RegisterMap)
    → NoneIn (keys c.entries) rs
    → own c (emplace_all rs v rmap) ≡ own c rmap
unfolding emplace_all
emplace_all-own c [] v rmap h = refl
emplace_all-own c (r ∷ rs) v rmap h =
    emplace_all-own c rs v (try_emplace r v rmap) h.1
    ∙ only-try_emplace_out (λ k. has_key k c) r v rmap h.0

emplace_all-Ordered :
    (rs : List ℕ) (v : ℕ) (rmap : RegisterMap) → Ordered rmap → Ordered (emplace_all rs v rmap)
unfolding emplace_all
emplace_all-Ordered [] v rmap h = h
emplace_all-Ordered (r ∷ rs) v rmap h =
    emplace_all-Ordered rs v (try_emplace r v rmap) (Ordered-try_emplace r v rmap h)

All-append_left {κ} : (P : ℕ → Type κ) (xs ys : List ℕ) → All P (xs ++ ys) → All P xs
All-append_left P [] ys h = tt
All-append_left P (x ∷ xs) ys h = (h.0, All-append_left P xs ys h.1)

All-append_right {κ} : (P : ℕ → Type κ) (xs ys : List ℕ) → All P (xs ++ ys) → All P ys
All-append_right P [] ys h = h
All-append_right P (x ∷ xs) ys h = All-append_right P xs ys h.1

pub entries-Ordered :
    (idx reg_idx bits : ℕ) (es : List (ℕ × List ℕ)) (s : Materialized)
    → Ordered s.rmap
    → Ordered (materialize_entries idx reg_idx bits es s).rmap
unfolding materialize_entries
entries-Ordered idx reg_idx bits [] s h = h
entries-Ordered idx reg_idx bits ((reg, subregs) ∷ es) s h =
    entries-Ordered idx (suc reg_idx) bits es _ (
      emplace_all-Ordered subregs s.next (try_emplace reg s.next s.rmap)
        (Ordered-try_emplace reg s.next s.rmap h))

-- A class that is foreign leaves the part of `c` alone.
pub entries-own_foreign :
    (c : RegisterClass) (idx reg_idx bits : ℕ) (es : List (ℕ × List ℕ)) (s : Materialized)
    → NoneIn (keys c.entries) (registers es)
    → own c (materialize_entries idx reg_idx bits es s).rmap ≡ own c s.rmap
unfolding materialize_entries
entries-own_foreign c idx reg_idx bits [] s h = refl
entries-own_foreign c idx reg_idx bits ((reg, subregs) ∷ es) s h =
    entries-own_foreign c idx (suc reg_idx) bits es _
      (All-append_right _ subregs (registers es) h.1)
    ∙ emplace_all-own c subregs s.next (try_emplace reg s.next s.rmap)
        (All-append_left _ subregs (registers es) h.1)
    ∙ only-try_emplace_out (λ k. has_key k c) reg s.next s.rmap h.0

-- The variables that a class gets.
abbrev pub pairs : List (ℕ × List ℕ) → ℕ → RegisterMap
pairs [] n = []
pairs (e ∷ es) n = (e.0, n) ∷ pairs es (suc n)

abbrev pub AllIn : List ℕ → List (ℕ × List ℕ) → Type 0
AllIn ks es = All (λ e. is_contained e.0 ks ≡ true) es

abbrev pub Under : ℕ → RegisterMap → Type 0
Under k m = All (λ e. e.0 < k) m

-- What the map has for a class lies under the next key of it.
abbrev pub UnderNext : List (ℕ × List ℕ) → RegisterMap → Type 0
UnderNext [] m = Unit
UnderNext (e ∷ es) m = Under e.0 m

Under-mono : (j k : ℕ) (m : RegisterMap) → j < k → Under j m → Under k m
Under-mono j k [] h u = tt
Under-mono j k (e ∷ m) h u = (omega arith, Under-mono j k m h u.1)

UnderNext-push :
    (k v : ℕ) (es : List (ℕ × List ℕ)) (m : RegisterMap)
    → Above k es
    → Under k m
    → UnderNext es (m ++ (k, v) ∷ [])
UnderNext-push k v [] m a u = tt
UnderNext-push k v (e ∷ es) m a u =
    All-append (λ x. x.0 < e.0) m ((k, v) ∷ []) (Under-mono k e.0 m a.0 u) (a.0, tt)

pub record Grown (c : RegisterClass) (idx reg_idx : ℕ) (es : List (ℕ × List ℕ))
    (s s' : Materialized) : Type 0 where
  pub kept : own c s'.rmap ≡ own c s.rmap ++ pairs es s.next
  pub loaded : s'.loads ≡ s.loads ++ enumerate_class idx reg_idx c.bits (pairs es s.next)

Above-Ordered_entries : (k : ℕ) (es : List (ℕ × List ℕ)) → Above k es → Ordered es
Above-Ordered_entries k [] a = tt
Above-Ordered_entries k (e ∷ es) a = a.1

pub entries-Grown :
    (c : RegisterClass) (idx reg_idx : ℕ) (es : List (ℕ × List ℕ)) (s : Materialized)
    → Ordered es
    → AllIn (keys c.entries) es
    → NoneIn (keys c.entries) (subregisters es)
    → Ordered s.rmap
    → UnderNext es (own c s.rmap)
    → Grown c idx reg_idx es s (materialize_entries idx reg_idx c.bits es s)
unfolding materialize_entries enumerate_class
entries-Grown c idx reg_idx [] s o i n os u = record {
  kept = sym (append-nil _);
  loaded = sym (append-nil _);
}
entries-Grown c idx reg_idx ((reg, subregs) ∷ es) s o i n os u =
    let m1 = try_emplace reg s.next s.rmap in
    let m2 = emplace_all subregs s.next m1 in
    let t : Transfer = record {
      array = idx;
      element = reg_idx;
      variable = s.next;
      bits = c.bits;
    } in
    let s1 : Materialized = record { rmap = m2; loads = s.loads ++ t ∷ []; next = suc s.next } in
    let e : own c m2 ≡ own c s.rmap ++ (reg, s.next) ∷ [] =
      emplace_all-own c subregs s.next m1 (All-append_left _ subregs (subregisters es) n)
      ∙ only-try_emplace_in (λ k. has_key k c) reg s.next s.rmap os i.0 u in
    let g =
      entries-Grown c idx (suc reg_idx) es s1 (Above-Ordered_entries reg es o) i.1
        (All-append_right _ subregs (subregisters es) n)
        (emplace_all-Ordered subregs s.next m1 (Ordered-try_emplace reg s.next s.rmap os))
        (rw e (UnderNext-push reg s.next es (own c s.rmap) o u)) in
    record {
      kept =
          g.kept
          ∙ ap (λ m. m ++ pairs es (suc s.next)) e
          ∙ append_assoc (own c s.rmap) ((reg, s.next) ∷ []) (pairs es (suc s.next));
      loaded =
          g.loaded
          ∙ append_assoc s.loads (t ∷ [])
              (enumerate_class idx (suc reg_idx) c.bits (pairs es (suc s.next)));
    }

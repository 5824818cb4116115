-- ===== src/Elf/Listing/Laws.antt =====
-- The listing ends, and shows every byte once, in order, behind the address that it has.
use llvm_bleach.Base.{
  ℕ, zero, suc, ◌+◌, ◌-◌, ◌%◌, ◌^◌, ◌≤◌, ◌<◌, ◌≡◌, refl, sym, ap, subst, ◌∙◌, inl, inr, true, List,
  [], ◌∷◌, ◌++◌, some, ok, length, take, drop, ltb, ltb→lt, take-append-drop, drop-drop,
  drop-eq_nil, length-take-drop, arith, Bool-cases, Option-cases, add64,
}
use llvm_bleach.Elf.Listing.{Decoder, Line, line_at, listing, disassemble_bytes}

abbrev pub shown_lines : {I : Type 0} → List (Line I) → List ℕ
shown_lines [] = []
shown_lines (l ∷ ls) = l.bytes ++ shown_lines ls

-- Each line has the address of the first of its bytes, modulo 2 ^ 64.
abbrev pub LinesAt : {I : Type 0} → ℕ → List (Line I) → Type 0
LinesAt a [] = Unit
LinesAt a (l ∷ ls) =
    (l.address ≡ a % 2 ^ 64) × (0 < length l.bytes) × LinesAt (a + length l.bytes) ls

module _ {I : Type 0} (decode : Decoder I)
    (positive : (bs : List ℕ) (a : ℕ) (i : I) (n : ℕ) → decode bs a ≡ some (i, n) → 0 < n)
    (bytes : List ℕ) (base : ℕ) where
  line_at_facts :
      (index address : ℕ)
      → let step = line_at decode true bytes index address in
        (0 < step.1) × (step.0.address ≡ address) × (step.0.bytes ≡ take step.1 (drop index bytes))
  unfolding line_at
  line_at_facts index address = elim (Option-cases (decode (drop index bytes) address)) [
    | inl e ↦ rw (e, line_at) (omega arith, refl, refl)
    | inr ((i, n), e) ↦ rw (e, line_at) (positive (drop index bytes) address i n e, refl, refl)
  ]

  record Shows (fuel index address : ℕ) : Type 0 where
    lines : List (Line I)
    run : listing decode true fuel bytes index address ≡ ok lines
    shown : shown_lines lines ≡ drop index bytes
    placed : LinesAt (base + index) lines
    few : length lines ≤ length bytes - index

  -- The lines of the rest stand behind the bytes of this line, also if these were cut at the end.
  LinesAt-rest :
      (index n : ℕ) (ls : List (Line I))
      → index < length bytes
      → length ls ≤ length bytes - (index + n)
      → LinesAt (base + (index + n)) ls
      → LinesAt (base + index + length (take n (drop index bytes))) ls
  LinesAt-rest index n [] lt few h = tt
  LinesAt-rest index n (l ∷ ls) lt few h =
      let e : base + (index + n) ≡ base + index + length (take n (drop index bytes)) =
        omega (arith, length-take-drop n index bytes) in
      subst (λ a. LinesAt a (l ∷ ls)) e h

  listing-Shows :
      (fuel index address : ℕ)
      → length bytes - index < fuel
      → address ≡ (base + index) % 2 ^ 64
      → Shows fuel index address
  unfolding listing
  listing-Shows zero index address h e = absurd (omega arith)
  listing-Shows (suc fuel) index address h e = elim (Bool-cases (ltb index (length bytes))) [
    | inl t ↦
        let lt = ltb→lt index (length bytes) t in
        let step = line_at decode true bytes index address in
        let f = line_at_facts index address in
        let r =
          listing-Shows fuel (index + step.1) (add64 address step.1) (omega (arith, f.0))
            (omega arith) in
        record {
          lines = step.0 ∷ r.lines;
          run = rw t (rw r.run refl);
          shown =
              rw (f.2, r.shown)
                (ap (◌++◌ (take step.1 (drop index bytes)))
                    (sym (drop-drop index step.1 (index + step.1) bytes refl))
                  ∙ take-append-drop step.1 (drop index bytes));
          placed = (
            f.1 ∙ e,
            rw f.2 (omega (arith, f.0, length-take-drop step.1 index bytes)),
            rw f.2 (LinesAt-rest index step.1 r.lines lt r.few r.placed),
          );
          few = omega (arith, f.0, r.few);
        }
    | inr ge ↦
        let le : length bytes ≤ index = ground arith in
        record {
          lines = [];
          run = rw ge refl;
          shown = sym (drop-eq_nil index bytes le);
          placed = tt;
          few = omega arith;
        }
  ]

  -- If no instruction takes no bytes, the listing ends, whatever the bytes: the bytes of its lines are
  -- the given bytes in order, each line has at least one of them and the address of its first one,
  -- and so there are no more lines than bytes.
  pub disassemble_bytes_shows :
      base < 2 ^ 64
      → (ls : List (Line I)) × (disassemble_bytes decode true bytes base ≡ ok ls)
        × (shown_lines ls ≡ bytes)
        × LinesAt base ls
        × (length ls ≤ length bytes)
  unfolding disassemble_bytes
  disassemble_bytes_shows h =
      let r = listing-Shows (suc (length bytes)) 0 base (omega arith) (omega arith) in
      let e : base + 0 ≡ base = omega arith in
      (r.lines, r.run, r.shown, subst (λ a. LinesAt a r.lines) e r.placed, omega (arith, r.few))

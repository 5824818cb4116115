-- ===== src/Lifter/Globals/Memory.antt =====
-- An address of the object that is translated by the table, and then read, gives the byte of the object.
use mathlib.Core.Option
use llvm_bleach.Base.{
  ℕ, zero, suc, ◌+◌, ◌-◌, ◌%◌, ◌^◌, ◌≤◌, ◌<◌, ◌≡◌, refl, subst, ap, ◌∙◌, inl, inr, true, ◌&&◌,
  String, List, [], ◌∷◌, map, Option, none, some, ok, arith, length, get_elem?, take, All, ltb, leb,
  Bool-cases, add64, sub64, if◌then◌else◌,
}
use llvm_bleach.Mctomir.Sections.{SectionInfo}
use llvm_bleach.Runtime.SectionLookup.{hits, try_get_real_addr}
use llvm_bleach.Lifter.Globals.{
  GlobalVariable, byte_array, SectionEntry, create_sections, create_addr_lookup_func,
  runtime_section, bleach_try_get_real_addr,
}
use llvm_bleach.Lifter.Globals.Kept.{NotLocal}
use llvm_bleach.Lifter.Globals.Table.{DescribesAll, create_sections-DescribesAll}

-- The byte of the object at an address: that of the first section that the address lies in.
abbrev pub byte_at : ℕ → List SectionInfo → Option ℕ
byte_at addr [] = none
byte_at addr (s ∷ sections) =
    if leb s.start addr && ltb addr (s.start + length s.bytes)
    then get_elem? s.bytes (addr - s.start)
    else byte_at addr sections

-- The section ends below the end of the address space.
abbrev pub EndsBelow : SectionInfo → Type 0
EndsBelow s = s.start + length s.bytes < 2 ^ 64

-- The loader: each global has its bytes in memory, within the address space.
abbrev pub Loaded : List GlobalVariable → (ℕ → ℕ) → (ℕ → ℕ) → Type 0
Loaded m address_of read =
    (i : ℕ) (g : GlobalVariable) (bytes : List ℕ)
    → get_elem? m i ≡ some g
    → g.initializer ≡ some (byte_array bytes)
    → (address_of i + length bytes < 2 ^ 64)
      × ((k : ℕ) (b : ℕ) → get_elem? bytes k ≡ some b → read (address_of i + k) ≡ b)

get_elem?_below : (xs : List ℕ) (k : ℕ) → k < length xs → (b : ℕ) × (get_elem? xs k ≡ some b)
get_elem?_below [] k h = absurd (omega arith)
get_elem?_below (x ∷ xs) zero h = (x, refl)
get_elem?_below (x ∷ xs) (suc k) h = get_elem?_below xs k (omega arith)

module _ (m : List GlobalVariable) (address_of : ℕ → ℕ) (read : ℕ → ℕ)
    (loaded : Loaded m address_of read) (addr : ℕ) (below : addr < 2 ^ 64) where
  read-lookup :
      (sections : List SectionInfo) (es : List SectionEntry)
      → All EndsBelow sections
      → DescribesAll m sections es
      → Option.map read
          (try_get_real_addr addr (map (runtime_section address_of) (take (length sections) es)))
        ≡ byte_at addr sections
  unfolding try_get_real_addr
  read-lookup [] [] f h = refl
  read-lookup [] (e ∷ es) f h = absurd h
  read-lookup (s ∷ sections) [] f h = absurd h
  read-lookup (s ∷ sections) (e ∷ es) f ((held, at_start, of_size), h) =
      let same : hits addr (runtime_section address_of e)
          ≡ (leb s.start addr && ltb addr (s.start + length s.bytes)) =
        rw (at_start, of_size, fits (s.start + length s.bytes) f.0) refl in
      elim (Bool-cases (leb s.start addr && ltb addr (s.start + length s.bytes))) [
        | inl c ↦
            let (inside, at_most) = in_range s.start (length s.bytes) c in
            let (b, eb) = get_elem?_below s.bytes (addr - s.start) at_most in
            let (room, bytes) = loaded e.data_ptr held.0 s.bytes held.1 held.4 in
            let place : add64 (address_of e.data_ptr) (sub64 addr e.start)
                ≡ address_of e.data_ptr + (addr - s.start) =
              rw at_start (omega (arith, below, inside, at_most, room)) in
            rw (c, same ∙ c, eb, place) (ap some (bytes (addr - s.start) b eb))
        | inr c ↦ rw (c, same ∙ c) (read-lookup sections es f.1 h)
      ]
    where
      fits : (n : ℕ) → n < 2 ^ 64 → n % 2 ^ 64 ≡ n
      fits n h = omega arith

      in_range :
          (start n : ℕ)
          → leb start addr && ltb addr (start + n) ≡ true
          → (start ≤ addr) × (addr - start < n)
      in_range start n c = (ground arith, ground arith)

-- A module that is made with the globals of some sections, each of which ends below the end of the
-- address space, and that is loaded with its globals in memory: `bleach_try_get_real_addr` does not
-- fail, and what it returns for an address of the object can be read and gives the object's byte at
-- that address, that of the first section that the address lies in; it is null where there is none.
pub bleach_try_get_real_addr-byte_at :
    (get_global_variable : String → List GlobalVariable → Option ℕ) (m m' : List GlobalVariable)
    (sections : List SectionInfo) (table : ℕ) (address_of read : ℕ → ℕ) (addr : ℕ)
    → NotLocal get_global_variable
    → All EndsBelow sections
    → create_sections get_global_variable m sections ≡ ok (m', table)
    → Loaded m' address_of read
    → addr < 2 ^ 64
    → (found : Option ℕ) × (bleach_try_get_real_addr address_of m'
          (create_addr_lookup_func table (length sections))
          addr
        ≡ ok found)
      × (Option.map read found ≡ byte_at addr sections)
unfolding bleach_try_get_real_addr
bleach_try_get_real_addr-byte_at get m m' sections table address_of read addr law f made loaded
      below =
    let (m1, table1, es, e, (g, at_table, l, c, v), d, kept) =
      create_sections-DescribesAll get m sections law in
    let module_same : m1 ≡ m' = cc (e, made) in
    let table_same : table1 ≡ table = cc (e, made) in
    let at_table' : get_elem? m' table ≡ some g = cc (at_table, module_same, table_same) in
    let described : DescribesAll m' sections es =
      subst (λ x. DescribesAll x sections es) module_same d in
    (
      _,
      rw (at_table', v) refl,
      read-lookup m' address_of read loaded addr below sections es f described,
    )

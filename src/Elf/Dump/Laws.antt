-- ===== src/Elf/Dump/Laws.antt =====
-- The dump shows every byte of the section once, in order, in rows of sixteen cells.
use llvm_bleach.Base.{
  ℕ, zero, suc, ◌+◌, ◌-◌, ◌/◌, ◌≤◌, ◌≡◌, refl, ap, ◌∙◌, inl, inr, Bool, List, [], ◌∷◌, ◌++◌, Option,
  none, some, length, get_elem?, drop, take, ltb, ltb→lt, take-append-drop, drop-drop, drop-eq_nil,
  sym, length-map, ok, String, arith, Bool-cases, add64, if◌then◌else◌,
}
use llvm_bleach.Elf.Dump.{Row, cells_from, dump_row, dump_rows, ascii_of, SectionDump, dump_section}
use llvm_bleach.Elf.Loader.{ElfLoader, Section, get_section_by_name, get_section_contents}

-- The bytes that cells show.
abbrev pub shown : List (Option ℕ) → List ℕ
shown [] = []
shown (none ∷ cs) = shown cs
shown (some b ∷ cs) = b ∷ shown cs

abbrev pub shown_rows : List Row → List ℕ
shown_rows [] = []
shown_rows (r ∷ rs) = shown r.cells ++ shown_rows rs

length-cells_from : (bytes : List ℕ) (i n : ℕ) → length (cells_from bytes i n) ≡ n
unfolding cells_from
length-cells_from bytes i zero = refl
length-cells_from bytes i (suc n) = ap suc (length-cells_from bytes (i + 1) n)

abbrev head? : List ℕ → Option ℕ
head? [] = none
head? (x ∷ xs) = some x

abbrev tail : List ℕ → List ℕ
tail [] = []
tail (x ∷ xs) = xs

get_elem?-drop : (bytes : List ℕ) (i : ℕ) → get_elem? bytes i ≡ head? (drop i bytes)
get_elem?-drop [] zero = refl
get_elem?-drop [] (suc i) = refl
get_elem?-drop (b ∷ bytes) zero = refl
get_elem?-drop (b ∷ bytes) (suc i) = get_elem?-drop bytes i

tail-drop : (bytes : List ℕ) (i : ℕ) → drop (i + 1) bytes ≡ tail (drop i bytes)
tail-drop bytes i = sym (drop-drop i 1 (i + 1) bytes refl) ∙ drop_one (drop i bytes)
  where
    drop_one : (d : List ℕ) → drop 1 d ≡ tail d
    drop_one [] = refl
    drop_one (x ∷ xs) = refl

shown-cons :
    (d : List ℕ) (rest : List (Option ℕ)) (n : ℕ)
    → shown rest ≡ take n (tail d)
    → shown (head? d ∷ rest) ≡ take (suc n) d
shown-cons [] rest zero h = h
shown-cons [] rest (suc n) h = h
shown-cons (x ∷ d) rest n h = ap (◌∷◌ x) h

-- A stretch of cells shows the bytes from its offset on, as far as there are any.
shown-cells_from : (bytes : List ℕ) (i n : ℕ) → shown (cells_from bytes i n) ≡ take n (drop i bytes)
unfolding cells_from
shown-cells_from bytes i zero = refl
shown-cells_from bytes i (suc n) = rw (get_elem?-drop bytes i) (
    shown-cons (drop i bytes) (cells_from bytes (i + 1) n) n
      (shown-cells_from bytes (i + 1) n ∙ ap (take n) (tail-drop bytes i)))

module _ (is_print : ℕ → Bool) (section_addr : ℕ) (show_address : Bool) (bytes : List ℕ) where
  abbrev rows_from : ℕ → ℕ → List Row
  rows_from fuel offset = dump_rows fuel is_print section_addr show_address bytes offset

  shown-dump_rows :
      (fuel offset : ℕ)
      → length bytes ≤ fuel + offset
      → shown_rows (rows_from fuel offset) ≡ drop offset bytes
  unfolding dump_rows dump_row
  shown-dump_rows zero offset h = sym (drop-eq_nil offset bytes (omega arith))
  shown-dump_rows (suc fuel) offset h = elim (Bool-cases (ltb offset (length bytes))) [
    | inl e ↦ rw e (
        rw (shown-cells_from bytes offset 16, shown-dump_rows fuel (offset + 16) (omega arith))
          (ap (◌++◌ (take 16 (drop offset bytes)))
              (sym (drop-drop offset 16 (offset + 16) bytes refl))
            ∙ take-append-drop 16 (drop offset bytes)))
    | inr e ↦ rw e (sym (drop-eq_nil offset bytes (ground arith)))
  ]

  length-dump_rows :
      (fuel offset : ℕ)
      → length bytes ≤ fuel + offset
      → length (rows_from fuel offset) ≡ (length bytes - offset + 15) / 16
  unfolding dump_rows
  length-dump_rows zero offset h = omega arith
  length-dump_rows (suc fuel) offset h = elim (Bool-cases (ltb offset (length bytes))) [
    | inl e ↦ rw e (
        omega (
          arith,
          ltb→lt offset (length bytes) e,
          length-dump_rows fuel (offset + 16) (omega arith),
        ))
    | inr e ↦ rw e (let le : length bytes ≤ offset = ground arith in omega arith)
  ]

  -- Rows of sixteen cells and characters, the first one at an offset.
  abbrev pub RowsAt : ℕ → List Row → Type 0
  RowsAt offset [] = Unit
  RowsAt offset (r ∷ rs) =
      (r.address ≡ (if show_address then some (add64 section_addr offset) else none))
      × (length r.cells ≡ 16)
      × (length r.ascii ≡ 16)
      × RowsAt (offset + 16) rs

  dump_rows-RowsAt : (fuel offset : ℕ) → RowsAt offset (rows_from fuel offset)
  unfolding dump_rows dump_row
  dump_rows-RowsAt zero offset = tt
  dump_rows-RowsAt (suc fuel) offset = elim (Bool-cases (ltb offset (length bytes))) [
    | inl e ↦ rw e (
      refl,
      length-cells_from bytes offset 16,
      length-map (cells_from bytes offset 16) (ascii_of is_print)
          ∙ length-cells_from bytes offset 16,
      dump_rows-RowsAt fuel (offset + 16),
    )
    | inr e ↦ rw e tt
  ]

-- Where the section and its contents can be read, the dump is made; its rows show all the bytes in
-- order, there are as many rows as bytes take in sixteens, each has sixteen cells and characters,
-- and is headed by the address of its first byte if addresses are shown.
pub dump_section_shows :
    (is_print : ℕ → Bool) (l : ElfLoader) (name : String) (show_address : Bool) (s : Section)
    (bytes : List ℕ)
    → get_section_by_name l name ≡ ok s
    → get_section_contents l s ≡ ok bytes
    → (d : SectionDump) × (dump_section is_print l name show_address ≡ ok d)
      × (d.size ≡ length bytes)
      × (shown_rows d.rows ≡ bytes)
      × (length d.rows ≡ (length bytes + 15) / 16)
      × RowsAt is_print s.address show_address bytes 0 d.rows
unfolding dump_section
dump_section_shows is_print l name show_address s bytes found read =
    let rows = dump_rows (length bytes) is_print s.address show_address bytes 0 in
    (
      record { name = name; size = length bytes; rows = rows },
      rw (found, read) refl,
      refl,
      shown-dump_rows is_print s.address show_address bytes (length bytes) 0 (omega arith),
      omega (arith, length-dump_rows is_print s.address show_address bytes (length bytes) 0),
      dump_rows-RowsAt is_print s.address show_address bytes (length bytes) 0,
    )

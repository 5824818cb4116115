-- ===== src/Lifter/Globals/Table.antt =====
-- What the module holds when the globals of the sections and their table are made.
use Prim.Native.String.{◌++◌ as append}
use llvm_bleach.Base.{get_elem?-at, ℕ, ◌≡◌, refl, true, String, List, [], ◌∷◌, Option, ok, length}
use llvm_bleach.Mctomir.Sections.{SectionInfo}
use llvm_bleach.Lifter.Globals.{
  GlobalVariable, byte_array, i64, first_of, entries, private_linkage, internal_linkage,
  SectionEntry, SectionGlobals, is_read_only, section_name, new_global, create_global,
  create_section_globals, create_all_globals, section_entry, section_entries,
  create_sections_array_global, create_sections,
}
use llvm_bleach.Lifter.Globals.Kept.{
  NotLocal, LocalsKept, HoldsLocal, HoldsLocal-kept, get_elem?-append, create_global-kept,
  create_global-HoldsLocal,
}

-- The four globals of a section.
abbrev Made : List GlobalVariable → SectionInfo → SectionGlobals → Type 0
Made m s made =
    HoldsLocal m made.data_var (is_read_only s.acc) (byte_array s.bytes)
    × HoldsLocal m made.size_var true (i64 (length s.bytes))
    × HoldsLocal m made.start_var true (i64 s.start)
    × HoldsLocal m made.ptr_var true (first_of made.data_var)

Made-kept :
    (m m' : List GlobalVariable) (s : SectionInfo) (made : SectionGlobals)
    → LocalsKept m m'
    → Made m s made
    → Made m' s made
Made-kept m m' s made k (d, z, b, p) = (
  HoldsLocal-kept m m' made.data_var (is_read_only s.acc) (byte_array s.bytes) k d,
  HoldsLocal-kept m m' made.size_var true (i64 (length s.bytes)) k z,
  HoldsLocal-kept m m' made.start_var true (i64 s.start) k b,
  HoldsLocal-kept m m' made.ptr_var true (first_of made.data_var) k p,
)

abbrev MadeAll : List GlobalVariable → List SectionInfo → List SectionGlobals → Type 0
MadeAll m [] [] = Unit
MadeAll m [] (g ∷ made) = ⊥
MadeAll m (s ∷ sections) [] = ⊥
MadeAll m (s ∷ sections) (g ∷ made) = Made m s g × MadeAll m sections made

module _ (get_global_variable : String → List GlobalVariable → Option ℕ)
    (law : NotLocal get_global_variable) where
  create_section_globals-Made :
      (m : List GlobalVariable) (s : SectionInfo)
      → LocalsKept m (create_section_globals get_global_variable m s).0
        × Made
            (create_section_globals get_global_variable m s).0
            s
            (create_section_globals get_global_variable m s).1
  unfolding create_section_globals
  create_section_globals-Made m s =
      let name = section_name s.name in
      let m1 =
        new_global (append "bleach_" name) (is_read_only s.acc) private_linkage (byte_array s.bytes)
          m in
      let v2 = i64 (length s.bytes) in
      let m2 = create_global get_global_variable (append name "_size") v2 m1.0 in
      let m3 = create_global get_global_variable (append name "_start") (i64 s.start) m2.0 in
      let m4 = create_global get_global_variable (append name "_ptr") (first_of (length m)) m3.0 in
      let k2 = create_global-kept get_global_variable law (append name "_size") v2 m1.0 in
      let k3 =
        create_global-kept get_global_variable law (append name "_start") (i64 s.start) m2.0 in
      let k4 =
        create_global-kept get_global_variable law (append name "_ptr") (first_of (length m))
          m3.0 in
      (
        (λ i g e l. k4 i g (k3 i g (k2 i g (get_elem?-append m _ i g e) l) l) l),
        (
          (_, k4 _ _ (k3 _ _ (k2 _ _ (get_elem?-at m [] _) refl) refl) refl, refl, refl, refl),
          HoldsLocal-kept m3.0 m4.0 m2.1 true v2 k4 (
              HoldsLocal-kept m2.0 m3.0 m2.1 true v2 k3
                (create_global-HoldsLocal get_global_variable law (append name "_size") v2 m1.0)),
          HoldsLocal-kept m3.0 m4.0 m3.1 true (i64 s.start) k4 (
              create_global-HoldsLocal get_global_variable law (append name "_start") (i64 s.start)
                m2.0),
          create_global-HoldsLocal get_global_variable law (append name "_ptr")
              (first_of (length m)) m3.0,
        ),
      )

  create_all_globals-MadeAll :
      (m : List GlobalVariable) (sections : List SectionInfo)
      → LocalsKept m (create_all_globals get_global_variable m sections).0
        × MadeAll
            (create_all_globals get_global_variable m sections).0
            sections
            (create_all_globals get_global_variable m sections).1
  unfolding create_all_globals
  create_all_globals-MadeAll m [] = ((λ i g e l. e), tt)
  create_all_globals-MadeAll m (s ∷ sections) =
      let one = create_section_globals get_global_variable m s in
      let (k1, made) = create_section_globals-Made m s in
      let (k2, rest) = create_all_globals-MadeAll one.0 sections in
      ((λ i g e l. k2 i g (k1 i g e l) l), (Made-kept one.0 _ s one.1 k2 made, rest))

-- An entry of the table, with the global that it points at, is that of a section.
abbrev pub Describes : List GlobalVariable → SectionInfo → SectionEntry → Type 0
Describes m s e =
    HoldsLocal m e.data_ptr (is_read_only s.acc) (byte_array s.bytes)
    × (e.start ≡ s.start)
    × (e.size ≡ length s.bytes)

abbrev pub DescribesAll : List GlobalVariable → List SectionInfo → List SectionEntry → Type 0
DescribesAll m [] [] = Unit
DescribesAll m [] (e ∷ es) = ⊥
DescribesAll m (s ∷ sections) [] = ⊥
DescribesAll m (s ∷ sections) (e ∷ es) = Describes m s e × DescribesAll m sections es

section_entry-Made :
    (m : List GlobalVariable) (s : SectionInfo) (made : SectionGlobals)
    → Made m s made
    → section_entry m made
      ≡ ok (record { data_ptr = made.data_var; start = s.start; size = length s.bytes })
unfolding section_entry
section_entry-Made m s made (d, (g, e, l, c, v), (g', e', l', c', v'), (g'', e'', l'', c'', v'')) =
    rw (e, v, e', v', e'', v'') refl

section_entries-made :
    (m : List GlobalVariable) (sections : List SectionInfo) (made : List SectionGlobals)
    → MadeAll m sections made
    → (es : List SectionEntry) × (section_entries m made ≡ ok es) × DescribesAll m sections es
unfolding section_entries
section_entries-made m [] [] h = ([], refl, tt)
section_entries-made m [] (g ∷ made) h = absurd h
section_entries-made m (s ∷ sections) [] h = absurd h
section_entries-made m (s ∷ sections) (g ∷ made) h =
    let (es, e, d) = section_entries-made m sections made h.1 in
    (
      record { data_ptr = g.data_var; start = s.start; size = length s.bytes } ∷ es,
      rw (section_entry-Made m s g h.0, e) refl,
      ((h.0.0, refl, refl), d),
    )

DescribesAll-kept :
    (m m' : List GlobalVariable) (sections : List SectionInfo) (es : List SectionEntry)
    → LocalsKept m m'
    → DescribesAll m sections es
    → DescribesAll m' sections es
DescribesAll-kept m m' [] [] k h = tt
DescribesAll-kept m m' [] (e ∷ es) k h = absurd h
DescribesAll-kept m m' (s ∷ sections) [] k h = absurd h
DescribesAll-kept m m' (s ∷ sections) (e ∷ es) k h = (
  (HoldsLocal-kept m m' e.data_ptr (is_read_only s.acc) (byte_array s.bytes) k h.0.0, h.0.1, h.0.2),
  DescribesAll-kept m m' sections es k h.1,
)

-- For a `getGlobalVariable` that never returns a variable with local linkage: no assertion fails, and
-- the module ends with a constant table that has, for each section in order, its start, its size and a
-- global with its bytes, which is constant unless the section is writable. Every global with local
-- linkage that the module had is unchanged.
pub create_sections-DescribesAll :
    (get_global_variable : String → List GlobalVariable → Option ℕ) (m : List GlobalVariable)
    (sections : List SectionInfo)
    → NotLocal get_global_variable
    → (m' : List GlobalVariable) × (table : ℕ) × (es : List SectionEntry) × (create_sections
          get_global_variable m sections
        ≡ ok (m', table))
      × HoldsLocal m' table true (entries es)
      × DescribesAll m' sections es
      × LocalsKept m m'
unfolding create_sections create_sections_array_global
create_sections-DescribesAll get_global_variable m sections law =
    let made = create_all_globals get_global_variable m sections in
    let (k, all_made) = create_all_globals-MadeAll get_global_variable law m sections in
    let (es, e, d) = section_entries-made made.0 sections made.1 all_made in
    let last = new_global "bleach_section_globals" true internal_linkage (entries es) made.0 in
    (
      last.0,
      last.1,
      es,
      rw e refl,
      (_, get_elem?-at made.0 [] _, refl, refl, refl),
      DescribesAll-kept made.0 last.0 sections es (λ i g e' l. get_elem?-append made.0 _ i g e') d,
      λ i g e' l. get_elem?-append made.0 _ i g (k i g e' l),
    )

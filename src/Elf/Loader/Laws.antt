-- ===== src/Elf/Loader/Laws.antt =====
-- What a load leaves behind, and which section is found.
use text.Mathlib.Text.{◌==◌ as str_eq}
use text.Mathlib.TextEquality.{eq_iff}
use llvm_bleach.Base.{
  ℕ, ◌≡◌, ◌≢◌, refl, ap, ◌∙◌, ◌⊎◌, inl, inr, true, String, List, [], ◌∷◌, none, some, Result, ok,
  err, arith, All, Option-cases, Bool-cases,
}
use llvm_bleach.Elf.Loader.{
  Section, ObjectFile, Files, ElfError, ElfLoader, load_file, get_elf_object, get_section_by_name,
  get_section_contents, get_file_type, get_machine_type, find_section, create_elf, load_buffer,
}

-- The object that the loader has after an attempt to create it.
create_elf_cases :
    (obj : ObjectFile) (l : ElfLoader)
    → let r = create_elf obj l in
      ((obj.is_elf ≡ true) × (r.1 ≡ ok tt) × (r.0.elf_obj ≡ some obj))
      ⊎ ((e : ElfError) × (r.1 ≡ err e) × (r.0.elf_obj ≡ l.elf_obj))
unfolding create_elf
create_elf_cases obj l = elim (Bool-cases obj.is_elf) [
  | inr e ↦ inr (ElfError.not_elf, rw e refl, rw e refl)
  | inl e ↦ elim (Bool-cases obj.is_elf_base) [
    | inr e' ↦ inr (ElfError.cast_failed, rw (e, e') refl, rw (e, e') refl)
    | inl e' ↦ inl (e, rw (e, e') refl, rw (e, e') refl)
  ]
]

-- What a load is to leave: the ELF object of the file, or an error and no object at all.
abbrev pub Loads : Files → String → ElfLoader × Result ElfError (Unit {0}) → Type 0
Loads fs path r =
    ((bytes : List ℕ) × (obj : ObjectFile) × (fs.exists path ≡ true)
      × (fs.get_file path ≡ some bytes)
      × (fs.create_object bytes ≡ some obj)
      × (obj.is_elf ≡ true)
      × (r.1 ≡ ok tt)
      × (get_elf_object r.0 ≡ ok obj))
    ⊎ ((e : ElfError) × (r.1 ≡ err e)
        × (get_elf_object r.0 ≡ err ElfError.not_loaded)
        × ((name : String) → get_section_by_name r.0 name ≡ err ElfError.not_loaded)
        × ((s : Section) → get_section_contents r.0 s ≡ err ElfError.not_loaded)
        × (get_file_type r.0 ≡ err ElfError.not_loaded)
        × (get_machine_type r.0 ≡ err ElfError.not_loaded))

-- Without an object every query fails.
Loads-failed :
    (fs : Files) (path : String) (r : ElfLoader × Result ElfError (Unit {0})) (e : ElfError)
    → r.1 ≡ err e
    → r.0.elf_obj ≡ none
    → Loads fs path r
unfolding get_elf_object get_section_by_name get_section_contents get_file_type get_machine_type
Loads-failed fs path r e h n =
    inr (e, h, rw n refl, (λ name. rw n refl), (λ s. rw n refl), rw n refl, rw n refl)

-- A load succeeds with the object of the file, if that is an ELF file, and that object is what the
-- loader then has; a load that fails leaves no object of this file or of one loaded before, so
-- that every query fails.
pub load_file-Loads :
    (fs : Files) (path : String) (l : ElfLoader) → Loads fs path (load_file fs path l)
unfolding load_file get_elf_object
load_file-Loads fs path l = elim (Bool-cases (fs.exists path)) [
  | inr e ↦ Loads-failed fs path (load_file fs path l) ElfError.no_such_file (rw e refl) (rw e refl)
  | inl e ↦ elim (Option-cases (fs.get_file path)) [
    | inl e' ↦
        Loads-failed fs path (load_file fs path l) ElfError.file_error (rw (e, e') refl)
          (rw (e, e') refl)
    | inr (bytes, e') ↦ elim (Option-cases (fs.create_object bytes)) [
      | inl e'' ↦
          Loads-failed fs path (load_file fs path l) ElfError.bad_object
            (rw (e, e', load_buffer, e'') refl) (rw (e, e', load_buffer, e'') refl)
      | inr (obj, e'') ↦
          elim (create_elf_cases obj
            (record { buffer = some bytes; obj_file = none; elf_obj = none })) [
              | inl (is_elf, done, has) ↦ inl (
                bytes,
                obj,
                e,
                e',
                e'',
                is_elf,
                rw (e, e', load_buffer, e'') done,
                rw (e, e', load_buffer, e'') (rw has refl),
              )
              | inr (x, failed, has) ↦
                  Loads-failed fs path (load_file fs path l) x (rw (e, e', load_buffer, e'') failed)
                    (rw (e, e', load_buffer, e'') has)
            ]
    ]
  ]
]

-- `s` is the first of the sections that has the name.
abbrev pub FirstNamed : String → Section → List Section → Type 0
FirstNamed name s [] = ⊥
FirstNamed name s (c ∷ rest) =
    ((c ≡ s) × (c.name ≡ some name)) ⊎ ((c.name ≢ some name) × FirstNamed name s rest)

find_section_first :
    (name : String) (ss : List Section) (s : Section)
    → find_section name ss ≡ some s
    → FirstNamed name s ss
unfolding find_section
find_section_first name [] s e = cc
find_section_first name (c ∷ ss) s e = elim (Option-cases c.name) [
  | inl n ↦ inr ((λ h. cc (n, h)), find_section_first name ss s (ground arith))
  | inr (x, n) ↦ elim (Bool-cases (str_eq x name)) [
    | inl t ↦ inl (ground arith, n ∙ ap some ((eq_iff x name).0 t))
    | inr f ↦
        inr ((λ h. ground (arith, eq_iff x name)), find_section_first name ss s (ground arith))
  ]
]

find_section-none :
    (name : String) (ss : List Section)
    → find_section name ss ≡ none
    → All (λ c. c.name ≢ some name) ss
unfolding find_section
find_section-none name [] e = tt
find_section-none name (c ∷ ss) e = elim (Option-cases c.name) [
  | inl n ↦ ((λ h. cc (n, h)), find_section-none name ss (ground arith))
  | inr (x, n) ↦ ((λ h. ground (arith, eq_iff x name)), find_section-none name ss (ground arith))
]

-- With an object loaded, the lookup returns the first section that has the name, and fails only if
-- no section has it.
pub get_section_by_name_first :
    (l : ElfLoader) (elf : ObjectFile) (name : String)
    → l.elf_obj ≡ some elf
    → ((s : Section) × (get_section_by_name l name ≡ ok s) × FirstNamed name s elf.sections)
      ⊎ ((get_section_by_name l name ≡ err ElfError.section_not_found)
          × All (λ c. c.name ≢ some name) elf.sections)
unfolding get_section_by_name
get_section_by_name_first l elf name loaded = elim (Option-cases (find_section name elf.sections)) [
  | inl e ↦ inr (rw loaded (rw e refl), find_section-none name elf.sections e)
  | inr (s, e) ↦ inl (s, rw loaded (rw e refl), find_section_first name elf.sections s e)
]

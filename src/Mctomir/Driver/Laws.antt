-- ===== src/Mctomir/Driver/Laws.antt =====
-- What `lift_elf_file` returns for a file.
use llvm_bleach.Base.{
  map_error, ◌≡◌, ◌⊎◌, refl, ap, ◌∙◌, inl, inr, String, List, [], some, Result, ok, err, All, ℕ,
  Ensures-ok, Option, none, or_error, >>=-eq-ok, subst, Result-cases,
}
use llvm_bleach.Elf.Loader.{Files, ObjectFile, ElfLoader, ElfError, load_file, get_elf_object}
use llvm_bleach.Elf.Loader.Laws.{load_file-Loads}
use llvm_bleach.Elf.Target.{Factories, initialize, get_triple, get_disasm_features}
use llvm_bleach.Mctomir.Machine.{Machine}
use llvm_bleach.Mctomir.Finalize.Whole.{IsWhole}
use llvm_bleach.Mctomir.Finalize.Closed.{AllClosed}
use llvm_bleach.Mctomir.Sections.{Readable, Describes, read_sections-Describes}
use llvm_bleach.Mctomir.Convert.{Llvm, ConvertError, convert_section, convert_section-IsWhole}
use llvm_bleach.Mctomir.Driver.{
  TranslatorFactories, ProcessError, LiftFileError, failed_to_process, failed_to_convert,
  TranslationResult, in_load, in_disassembler, in_translator, initialize_translator,
  new_disassembler, new_loader, process_file, lift_elf_file,
}

-- The functions have blocks with all their instructions, the branches of the machine blocks go to
-- successors, and the data sections of the object are described.
abbrev pub IsTranslation : ObjectFile → TranslationResult → Type 0
IsTranslation obj r = All IsWhole r.funcs × AllClosed r.machine × Describes obj.sections r.sections

abbrev pub FailsEarly : Result LiftFileError TranslationResult → Type 0
FailsEarly r =
    ((e : ProcessError) × (r ≡ err (failed_to_process e)))
    ⊎ ((e : ConvertError) × (r ≡ err (failed_to_convert e)))

or_error-some :
    (o : Option ObjectFile) (obj : ObjectFile)
    → or_error o ElfError.not_loaded ≡ ok obj
    → o ≡ some obj
or_error-some none obj e = cc
or_error-some (some x) obj e = cc

process_file_loaded :
    (files : Files) (fs : Factories) (tfs : TranslatorFactories) (path : String) (bytes : List ℕ)
    (obj : ObjectFile) (l : ElfLoader)
    → files.get_file path ≡ some bytes
    → files.create_object bytes ≡ some obj
    → process_file files fs tfs path ≡ ok l
    → l.elf_obj ≡ some obj
unfolding process_file get_elf_object
process_file_loaded files fs tfs path bytes obj l read made e =
    let loaded = load_file files path new_loader in
    let (u, done, e1) = >>=-eq-ok (map_error in_load loaded.1) _ e in
    let (u1, d1, e2) =
      >>=-eq-ok (map_error in_disassembler (initialize fs loaded.0 new_disassembler).1) _ e1 in
    let (triple, d2, e3) = >>=-eq-ok (map_error in_disassembler (get_triple fs loaded.0)) _ e2 in
    let (features, d3, e4) =
      >>=-eq-ok (map_error in_disassembler (get_disasm_features fs loaded.0)) _ e3 in
    let (u4, d4, e5) =
      >>=-eq-ok (map_error in_translator (initialize_translator tfs triple features)) _ e4 in
    let same : loaded.0 ≡ l = cc (e5) in
    elim (load_file-Loads files path new_loader) [
      | inl (bytes', obj', there, read', made', elf, ok_run, object) ↦
          let bytes_same : bytes' ≡ bytes = cc (read, read') in
          let obj_same : obj' ≡ obj = cc (made, made', bytes_same) in
          subst (λ k. k.elf_obj ≡ some obj) same
            (or_error-some loaded.0.elf_obj obj (object ∙ ap ok obj_same))
      | inr (x, failed, no_object, a, b, c, d) ↦
          let broken : map_error in_load (err x) ≡ ok u = rw failed at done in cc
    ]

-- For a file whose object can be made and whose data sections can be read, `lift_elf_file` either
-- returns functions whose blocks hold exactly their instructions, in order, machine blocks whose block
-- operands are all among their successors, and the data sections of the object; or it reports an error
-- in loading the file or in the conversion. The sections are never what it fails on.
pub lift_elf_file-IsTranslation :
    (files : Files) (fs : Factories) (tfs : TranslatorFactories) (llvm : Llvm) (path : String)
    (bytes : List ℕ) (obj : ObjectFile)
    → files.get_file path ≡ some bytes
    → files.create_object bytes ≡ some obj
    → All Readable obj.sections
    → ((r : TranslationResult) × (lift_elf_file files fs tfs llvm path ≡ ok r)
        × IsTranslation obj r)
      ⊎ FailsEarly (lift_elf_file files fs tfs llvm path)
unfolding lift_elf_file
lift_elf_file-IsTranslation files fs tfs llvm path bytes obj read made h =
    elim (Result-cases (process_file files fs tfs path)) [
      | inr (x, e) ↦ inr (inl (x, rw e refl))
      | inl (l, e) ↦ elim (Result-cases (convert_section llvm l ".text" [] no_blocks)) [
        | inr (x, e') ↦ inr (inr (x, rw (e, e') refl))
        | inl (r, e') ↦
            let whole = convert_section-IsWhole llvm l ".text" in
            let parts =
              Ensures-ok (λ c. All IsWhole c.0 × AllClosed c.1)
                (convert_section llvm l ".text" [] no_blocks) r whole e' in
            let loaded = process_file_loaded files fs tfs path bytes obj l read made e in
            let (infos, e'', described) = read_sections-Describes l obj loaded h in
            inl (
              record { funcs = r.0; machine = r.1; sections = infos },
              rw (e, e', e'') refl,
              (parts.0, parts.1, described),
            )
      ]
    ]
  where
    no_blocks : Machine
    no_blocks = record { mbbs = []; address_to_mbb = [] }

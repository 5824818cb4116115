-- ===== src/Examples/Objects.antt =====
-- An object file with one section of data, one of code, and one with no name.
use llvm_bleach.Base.{
  ℕ, ◌+◌, ◌/◌, ◌≡◌, ◌≢◌, ◌⊎◌, refl, Bool, true, false, List, [], ◌∷◌, none, some, ok, err, length,
  All, arith, leb,
}
use llvm_bleach.Elf.Loader.{
  Section, ObjectFile, Format, Files, ElfLoader, ElfError, load_file, get_section_by_name,
  get_section_contents, find_section,
}
use llvm_bleach.Elf.Loader.Laws.{Loads, FirstNamed, load_file-Loads, get_section_by_name_first}
use llvm_bleach.Elf.Dump.{SectionDump, dump_section}
use llvm_bleach.Elf.Dump.Laws.{shown_rows, RowsAt, dump_section_shows}
use llvm_bleach.Elf.Target.{
  Arch, Factories, Disassembler, initialize, initialize_tail, initialize_features, get_triple,
  get_disasm_features,
}
use llvm_bleach.Elf.Target.Laws.{Outcome, initialize-Outcome}
use llvm_bleach.Mctomir.Sections.{
  SectionInfo, Describes, Readable, is_data_section, read_sections, read_sections-Describes,
}

abbrev data_section : Section
data_section = record {
  name = some ".data";
  contents = some (1 ∷ 65 ∷ 3 ∷ []);
  address = 64;
  is_data = true;
  flags = 3;
}

abbrev comment_section : Section
comment_section = record { name = none; contents = none; address = 0; is_data = false; flags = 0 }

abbrev obj : ObjectFile
obj = record {
  is_elf = true;
  is_elf_base = true;
  format = Format.elf_64_le;
  e_type = 2;
  e_machine = 243;
  sections = comment_section ∷ data_section ∷ [];
}

abbrev files : Files
files = record {
  exists = λ path. true;
  get_file = λ path. some (127 ∷ 69 ∷ []);
  create_object = λ bytes. some obj;
}

abbrev no_object : ElfLoader
no_object = record { buffer = none; obj_file = none; elf_obj = none }

abbrev loader : ElfLoader
loader = record { buffer = some (127 ∷ 69 ∷ []); obj_file = some obj; elf_obj = some obj }

load_file_run : load_file files "a.out" no_object ≡ (loader, ok tt)
unfolding load_file
load_file_run = refl

load_file-Loads_example : Loads files "a.out" (load_file files "a.out" loader)
load_file-Loads_example = load_file-Loads files "a.out" loader

get_section_by_name_first_example :
    ((s : Section) × (get_section_by_name loader ".data" ≡ ok s)
      × FirstNamed ".data" s obj.sections)
    ⊎ ((get_section_by_name loader ".data" ≡ err ElfError.section_not_found)
        × All (λ c. c.name ≢ some ".data") obj.sections)
get_section_by_name_first_example = get_section_by_name_first loader obj ".data" refl

find_data : get_section_by_name loader ".data" ≡ ok data_section
unfolding get_section_by_name find_section
find_data = refl

read_data : get_section_contents loader data_section ≡ ok (1 ∷ 65 ∷ 3 ∷ [])
unfolding get_section_contents
read_data = refl

abbrev is_print : ℕ → Bool
is_print b = leb 32 b

dump_section_shows_example :
    (d : SectionDump) × (dump_section is_print loader ".data" true ≡ ok d)
    × (d.size ≡ 3)
    × (shown_rows d.rows ≡ 1 ∷ 65 ∷ 3 ∷ [])
    × (length d.rows ≡ (3 + 15) / 16)
    × RowsAt is_print 64 true (1 ∷ 65 ∷ 3 ∷ []) 0 d.rows
dump_section_shows_example =
    dump_section_shows is_print loader ".data" true data_section (1 ∷ 65 ∷ 3 ∷ []) find_data
      read_data

readable : All Readable obj.sections
unfolding is_data_section
readable = ((λ h. ground arith), ((λ h. (".data", 1 ∷ 65 ∷ 3 ∷ [], refl, refl)), tt))

read_sections-Describes_example :
    (infos : List SectionInfo) × (read_sections loader ≡ ok infos) × Describes obj.sections infos
read_sections-Describes_example = read_sections-Describes loader obj refl readable

abbrev pub factories : Factories
factories = record {
  arch = λ o. Arch.riscv64;
  features = λ o. some "+m";
  lookup_target = λ a. true;
  register_info = λ a. true;
  asm_info = λ a. true;
  subtarget_info = λ a f. true;
  instr_info = λ a. true;
  disassembler = λ a. true;
  printer = λ a. true;
}

abbrev unset : Disassembler
unset = record {
  target = false;
  mri = false;
  mai = false;
  sti = none;
  mii = false;
  dis_asm = false;
  inst_printer = false;
  initialized = false;
}

initialize_run : (initialize factories loader unset).1 ≡ ok tt
unfolding initialize initialize_tail initialize_features get_triple get_disasm_features
initialize_run = refl

initialize-Outcome_example : Outcome (initialize factories loader unset)
initialize-Outcome_example = initialize-Outcome factories loader unset refl

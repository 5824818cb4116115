-- ===== src/Elf/Loader.antt =====
-- `elf_loader`. An object file is what `llvm::object` shows of it: a section has a name and contents
-- that may fail to be read. `Files` stands for the file system and `ObjectFile::createObjectFile`.
pub mod Laws
use text.Mathlib.Text.{◌==◌ as str_eq}
use llvm_bleach.Base.{
  ℕ, Bool, true, false, ◌&&◌, not, String, List, [], ◌∷◌, Option, none, some, Result, ok, err,
  ◌>>=◌, or_error, if◌then◌else◌,
}

pub record Section : Type 0 where
  pub name : Option String
  pub contents : Option (List ℕ)
  pub address : ℕ
  pub is_data : Bool
  pub flags : ℕ

-- The header types that `get_file_type` tells apart.
pub data Format : Type 0 where
  elf_32_le elf_32_be elf_64_le elf_64_be other_format : Format

pub record ObjectFile : Type 0 where
  pub is_elf : Bool
  pub is_elf_base : Bool
  pub format : Format
  pub e_type : ℕ
  pub e_machine : ℕ
  pub sections : List Section

pub record Files : Type 0 where
  pub exists : String → Bool
  pub get_file : String → Option (List ℕ)
  pub create_object : List ℕ → Option ObjectFile

pub data ElfError : Type 0 where
  no_such_file file_error bad_object not_elf cast_failed not_loaded : ElfError
  section_not_found contents_error unsupported_format : ElfError

-- The members `buffer`, `obj_file` and `elf_obj`.
pub record ElfLoader : Type 0 where
  pub buffer : Option (List ℕ)
  pub obj_file : Option ObjectFile
  pub elf_obj : Option ObjectFile

-- The members are set one by one: a failure leaves those that were set before it.
create_elf : ObjectFile → ElfLoader → ElfLoader × Result ElfError (Unit {0})
create_elf obj l =
    let l' : ElfLoader = record l { obj_file = some obj } in
    if not obj.is_elf
    then (l', err ElfError.not_elf)
    else if not obj.is_elf_base
    then (l', err ElfError.cast_failed)
    else (record l' { elf_obj = some obj }, ok tt)

load_buffer : Files → List ℕ → ElfLoader → ElfLoader × Result ElfError (Unit {0})
unfolding create_elf
load_buffer fs bytes l =
    let l' : ElfLoader = record l { buffer = some bytes } in
    elim (fs.create_object bytes) [
      | none ↦ (l', err ElfError.bad_object)
      | some obj ↦ create_elf obj l'
    ]

unfoldable pub load_file : Files → String → ElfLoader → ElfLoader × Result ElfError (Unit {0})
unfolding load_buffer
load_file fs path l =
    let reset : ElfLoader = record { buffer = none; obj_file = none; elf_obj = none } in
    if not (fs.exists path) then (reset, err ElfError.no_such_file) else elim (fs.get_file path) [
      | none ↦ (reset, err ElfError.file_error)
      | some bytes ↦ load_buffer fs bytes reset
    ]

unfoldable pub get_elf_object : ElfLoader → Result ElfError ObjectFile
get_elf_object l = or_error l.elf_obj ElfError.not_loaded

-- Sections whose name cannot be read are passed over.
unfoldable pub find_section : String → List Section → Option Section
find_section name [] = none
find_section name (s ∷ rest) = elim s.name [
  | none ↦ find_section name rest
  | some n ↦ if str_eq n name then some s else find_section name rest
]

unfoldable pub get_section_by_name : ElfLoader → String → Result ElfError Section
get_section_by_name l name = do
  elf ← or_error l.elf_obj ElfError.not_loaded
  or_error (find_section name elf.sections) ElfError.section_not_found

unfoldable pub get_section_contents : ElfLoader → Section → Result ElfError (List ℕ)
get_section_contents l s = do
  elf ← or_error l.elf_obj ElfError.not_loaded
  or_error s.contents ElfError.contents_error

abbrev header_field : Format → ℕ → Result ElfError ℕ
header_field Format.other_format v = err ElfError.unsupported_format
header_field _ v = ok v

unfoldable pub get_file_type : ElfLoader → Result ElfError ℕ
get_file_type l = do
  elf ← or_error l.elf_obj ElfError.not_loaded
  header_field elf.format elf.e_type

unfoldable pub get_machine_type : ElfLoader → Result ElfError ℕ
get_machine_type l = do
  elf ← or_error l.elf_obj ElfError.not_loaded
  header_field elf.format elf.e_machine

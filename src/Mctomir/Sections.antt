-- ===== src/Mctomir/Sections.antt =====
-- The data sections of the object: `get_access`, `is_data_section`, `translator_t::set_section` and
-- `elf_to_mir_converter::read_sections` (lib/mctomir/mctomir-transform.cpp). Bytes stay numbers.
use llvm_bleach.Base.{
  ℕ, ◌/◌, ◌%◌, ◌≡◌, refl, sym, ap, ◌∙◌, inl, inr, Bool, true, false, ◌||◌, String, List, [], ◌∷◌,
  ◌++◌, some, Result, ok, ◌>>=◌, or_error, ◌==◌, ◌⊎◌, ◌↔◌, arith, All, Bool-cases, if◌then◌else◌,
}
use llvm_bleach.Elf.Loader.{
  Section, ObjectFile, ElfLoader, ElfError, get_elf_object, get_section_contents,
}
use mathlib.Core.List.{append_assoc, append-nil}

-- The values of `section_info::access` that occur: `r`, and `r | w`.
pub data Access : Type 0 where
  readable writable : Access

pub record SectionInfo : Type 0 where
  pub bytes : List ℕ
  pub name : String
  pub start : ℕ
  pub acc : Access

-- `flags & SHF_WRITE` and `flags & SHF_ALLOC`.
abbrev pub has_write : ℕ → Bool
has_write flags = flags % 2 == 1

abbrev pub has_alloc : ℕ → Bool
has_alloc flags = (flags / 2) % 2 == 1

unfoldable pub get_access : Section → Access
get_access s = if has_write s.flags then Access.writable else Access.readable

unfoldable pub is_data_section : Section → Bool
is_data_section s = s.is_data || has_alloc s.flags

unfoldable pub set_section : String → List ℕ → ℕ → Access → List SectionInfo → List SectionInfo
set_section name contents start acc sections =
    sections ++ record { bytes = contents; name = name; start = start; acc = acc } ∷ []

abbrev pub read_section :
    ElfLoader → Section → List SectionInfo → Result ElfError (List SectionInfo)
read_section l s out =
    if is_data_section s
    then (do
      contents ← get_section_contents l s
      name ← or_error s.name ElfError.bad_object
      ok (set_section name contents s.address (get_access s) out))
    else ok out

unfoldable pub read_each :
    ElfLoader → List Section → List SectionInfo → Result ElfError (List SectionInfo)
read_each l [] out = ok out
read_each l (s ∷ ss) out = read_section l s out >>= read_each l ss

unfoldable pub read_sections : ElfLoader → Result ElfError (List SectionInfo)
read_sections l = do elf ← get_elf_object l; read_each l elf.sections []

-- The data sections, described.
abbrev pub described : Section → String → List ℕ → SectionInfo
described s name contents = record {
  bytes = contents;
  name = name;
  start = s.address;
  acc = get_access s;
}

-- `infos` describes, in order, the data sections among `ss` and no others.
pub data Describes : List Section → List SectionInfo → Type 0 where
  none_left : Describes [] []
  other_section :
      {s : Section} {ss : List Section} {infos : List SectionInfo}
      → s.is_data ≡ false
      → has_alloc s.flags ≡ false
      → Describes ss infos
      → Describes (s ∷ ss) infos
  data_section :
      {s : Section} {ss : List Section} {infos : List SectionInfo} {info : SectionInfo}
      → (s.is_data ≡ true) ⊎ (has_alloc s.flags ≡ true)
      → s.name ≡ some info.name
      → s.contents ≡ some info.bytes
      → info.start ≡ s.address
      → ((info.acc ≡ Access.writable) ↔ (has_write s.flags ≡ true))
      → Describes ss infos
      → Describes (s ∷ ss) (info ∷ infos)

-- A section that is not described makes the whole read fail.
record Reads (l : ElfLoader) (ss : List Section) (out : List SectionInfo) : Type 0 where
  infos : List SectionInfo
  run : read_each l ss out ≡ ok (out ++ infos)
  describes : Describes ss infos

get_access_iff : (s : Section) → (get_access s ≡ Access.writable) ↔ (has_write s.flags ≡ true)
unfolding get_access
get_access_iff s = ground arith

is_data_section_cases :
    (s : Section) → is_data_section s ≡ true → (s.is_data ≡ true) ⊎ (has_alloc s.flags ≡ true)
unfolding is_data_section
is_data_section_cases s h = ground arith

other_section_cases :
    (s : Section) → is_data_section s ≡ false → (s.is_data ≡ false) × (has_alloc s.flags ≡ false)
unfolding is_data_section
other_section_cases s h = ground arith

-- Every data section has a name and contents that can be read.
abbrev pub Readable : Section → Type 0
Readable s =
    is_data_section s ≡ true
    → (name : String) × (contents : List ℕ) × (s.name ≡ some name) × (s.contents ≡ some contents)

read_each-Reads :
    (l : ElfLoader) (elf : ObjectFile) (loaded : l.elf_obj ≡ some elf) (ss : List Section)
    (out : List SectionInfo)
    → All Readable ss
    → Reads l ss out
unfolding read_each get_section_contents set_section get_access
read_each-Reads l elf loaded [] out h = record {
  infos = [];
  run = ap ok (sym (append-nil out));
  describes = none_left;
}
read_each-Reads l elf loaded (s ∷ ss) out h = elim (Bool-cases (is_data_section s)) [
  | inr e ↦
      let no = other_section_cases s e in
      let r = read_each-Reads l elf loaded ss out h.1 in
      record { infos = r.infos; run = rw e r.run; describes = other_section no.0 no.1 r.describes }
  | inl e ↦
      let (name, contents, en, ec) = h.0 e in
      let info = described s name contents in
      let r = read_each-Reads l elf loaded ss (out ++ info ∷ []) h.1 in
      record {
        infos = info ∷ r.infos;
        run = rw (e, loaded, ec, en) (r.run ∙ ap ok (append_assoc out (info ∷ []) r.infos));
        describes =
            data_section (is_data_section_cases s e) en ec refl (get_access_iff s) r.describes;
      }
]

-- Once an object is loaded whose data sections can all be read, the sections read are exactly those
-- that hold data or are allocated, in order, each with its name, its contents and its address, and
-- marked writable just when the section is.
pub read_sections-Describes :
    (l : ElfLoader) (elf : ObjectFile)
    → l.elf_obj ≡ some elf
    → All Readable elf.sections
    → (infos : List SectionInfo) × (read_sections l ≡ ok infos) × Describes elf.sections infos
unfolding read_sections get_elf_object
read_sections-Describes l elf loaded h =
    let r = read_each-Reads l elf loaded elf.sections [] h in
    let start : read_sections l ≡ read_each l elf.sections [] = ground arith in
    (r.infos, start ∙ r.run, r.describes)

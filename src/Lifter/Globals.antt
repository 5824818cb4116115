-- ===== src/Lifter/Globals.antt =====
-- `create_section_globals` and `create_sections_array_global` (lib/lifter/lifter.cpp): the bytes of each
-- section become a global of the module, and a table tells where each section was. A global is known by
-- its place in the list of them. `get_global_variable` stands for `Module::getGlobalVariable`; the
-- renaming of a new global whose name is taken is LLVM's, so a name is the one asked for.
pub mod Kept
pub mod Table
pub mod Memory
use Prim.Native.Char.{code}
use Prim.Native.String.{◌++◌ as append}
use llvm_bleach.Base.{
  ℕ, zero, suc, ◌==◌, Bool, true, false, not, String, List, [], ◌∷◌, ◌++◌, Option, none, some,
  Result, ok, err, ◌>>=◌, or_error, length, get_elem?, take, map, if◌then◌else◌,
}
use llvm_bleach.Mctomir.Sections.{SectionInfo, Access, readable, writable}
use llvm_bleach.Runtime.SectionLookup.{BleachSection, try_get_real_addr}

pub data Linkage : Type 0 where
  private_linkage internal_linkage external_linkage : Linkage

-- `{ptr, i64, i64}`, with the global that the pointer is the start of.
pub record SectionEntry : Type 0 where
  pub data_ptr : ℕ
  pub start : ℕ
  pub size : ℕ

pub data Constant : Type 0 where
  byte_array : List ℕ → Constant
  i64 : ℕ → Constant
  -- a pointer to the first byte of a global
  first_of : ℕ → Constant
  entries : List SectionEntry → Constant

pub record GlobalVariable : Type 0 where
  pub name : String
  pub is_constant : Bool
  pub linkage : Linkage
  pub initializer : Option Constant

abbrev pub has_local_linkage : GlobalVariable → Bool
has_local_linkage g = elim g.linkage [
  | private_linkage ↦ true
  | internal_linkage ↦ true
  | external_linkage ↦ false
]

pub record SectionGlobals : Type 0 where
  pub data_var : ℕ
  pub size_var : ℕ
  pub start_var : ℕ
  pub ptr_var : ℕ

-- `getInitializer` asserts that there is one; the table takes those of the kind that was made.
pub data GlobalsError : Type 0 where
  no_initializer wrong_initializer : GlobalsError

-- `if (name[0] == '.') name.erase(0, 1)`
unfoldable pub section_name : String → String
section_name String.[] = String.[]
section_name (String.◌∷◌ c s) = if code c == 46 then s else String.◌∷◌ c s

-- `!(section.acc & access::w)`
abbrev pub is_read_only : Access → Bool
is_read_only readable = true
is_read_only writable = false

abbrev pub modify :
    ℕ → (GlobalVariable → GlobalVariable) → List GlobalVariable → List GlobalVariable
modify n f [] = []
modify zero f (g ∷ m) = f g ∷ m
modify (suc n) f (g ∷ m) = g ∷ modify n f m

-- `new GlobalVariable(mod, …)`
abbrev pub new_global :
    String → Bool → Linkage → Constant → List GlobalVariable → List GlobalVariable × ℕ
new_global name is_constant linkage val m = (
  m
      ++ record {
        name = name;
        is_constant = is_constant;
        linkage = linkage;
        initializer = some val;
      }
        ∷ [],
  length m,
)

-- `Modify if declared else create`
unfoldable pub create_global :
    (String → List GlobalVariable → Option ℕ)
    → String
    → Constant
    → List GlobalVariable
    → List GlobalVariable × ℕ
create_global get_global_variable varname val m = elim (get_global_variable varname m) [
  | some i ↦ (
    modify i
        (λ g. record g { is_constant = true; linkage = private_linkage; initializer = some val }) m,
    i,
  )
  | none ↦ new_global varname true private_linkage val m
]

unfoldable pub create_section_globals :
    (String → List GlobalVariable → Option ℕ)
    → List GlobalVariable
    → SectionInfo
    → List GlobalVariable × SectionGlobals
create_section_globals get_global_variable m section =
    let name = section_name section.name in
    let (m1, data_var) =
      new_global (append "bleach_" name) (is_read_only section.acc) private_linkage
        (byte_array section.bytes) m in
    let (m2, size_var) =
      create_global get_global_variable (append name "_size") (i64 (length section.bytes)) m1 in
    let (m3, start_var) =
      create_global get_global_variable (append name "_start") (i64 section.start) m2 in
    let (m4, ptr_var) =
      create_global get_global_variable (append name "_ptr") (first_of data_var) m3 in
    (
      m4,
      record { data_var = data_var; size_var = size_var; start_var = start_var; ptr_var = ptr_var },
    )

-- The transform over the sections in `bleach_module`.
unfoldable pub create_all_globals :
    (String → List GlobalVariable → Option ℕ)
    → List GlobalVariable
    → List SectionInfo
    → List GlobalVariable × List SectionGlobals
create_all_globals get_global_variable m [] = (m, [])
create_all_globals get_global_variable m (s ∷ sections) =
    let (m', globals) = create_section_globals get_global_variable m s in
    let (m'', rest) = create_all_globals get_global_variable m' sections in (m'', globals ∷ rest)

abbrev pub get_initializer : ℕ → List GlobalVariable → Result GlobalsError Constant
get_initializer i m = do
  g ← or_error (get_elem? m i) no_initializer
  or_error g.initializer no_initializer

abbrev pub i64_value : Constant → Result GlobalsError ℕ
i64_value (i64 n) = ok n
i64_value (byte_array bs) = err wrong_initializer
i64_value (first_of i) = err wrong_initializer
i64_value (entries es) = err wrong_initializer

abbrev pub pointed_global : Constant → Result GlobalsError ℕ
pointed_global (first_of i) = ok i
pointed_global (byte_array bs) = err wrong_initializer
pointed_global (i64 n) = err wrong_initializer
pointed_global (entries es) = err wrong_initializer

unfoldable pub section_entry :
    List GlobalVariable → SectionGlobals → Result GlobalsError SectionEntry
section_entry m s = do
  size ← get_initializer s.size_var m >>= i64_value
  start ← get_initializer s.start_var m >>= i64_value
  ptr ← get_initializer s.ptr_var m >>= pointed_global
  ok (record { data_ptr = ptr; start = start; size = size })

unfoldable pub section_entries :
    List GlobalVariable → List SectionGlobals → Result GlobalsError (List SectionEntry)
section_entries m [] = ok []
section_entries m (s ∷ sections) = do
  e ← section_entry m s
  es ← section_entries m sections
  ok (e ∷ es)

unfoldable pub create_sections_array_global :
    List GlobalVariable → List SectionGlobals → Result GlobalsError (List GlobalVariable × ℕ)
create_sections_array_global m sections = do
  es ← section_entries m sections
  ok (new_global "bleach_section_globals" true internal_linkage (entries es) m)

-- The globals of all sections and their table, as `bleach_module` makes them.
unfoldable pub create_sections :
    (String → List GlobalVariable → Option ℕ)
    → List GlobalVariable
    → List SectionInfo
    → Result GlobalsError (List GlobalVariable × ℕ)
create_sections get_global_variable m sections =
    let (m', globals) = create_all_globals get_global_variable m sections in
    create_sections_array_global m' globals

-- The body of `bleach_try_get_real_addr`: a call of the run-time function with the table and its length.
pub record AddrLookup : Type 0 where
  pub sections_array : ℕ
  pub sections_count : ℕ

abbrev pub create_addr_lookup_func : ℕ → ℕ → AddrLookup
create_addr_lookup_func sections_array sections_count = record {
  sections_array = sections_array;
  sections_count = sections_count;
}

-- The table as the run-time function reads it, where `address_of` is where each global is loaded.
abbrev pub runtime_section : (ℕ → ℕ) → SectionEntry → BleachSection
runtime_section address_of e = record {
  host = address_of e.data_ptr;
  start = e.start;
  size = e.size;
}

abbrev pub table_of : Constant → Result GlobalsError (List SectionEntry)
table_of (entries es) = ok es
table_of (byte_array bs) = err wrong_initializer
table_of (i64 n) = err wrong_initializer
table_of (first_of i) = err wrong_initializer

-- A run of `bleach_try_get_real_addr` in a module.
unfoldable pub bleach_try_get_real_addr :
    (ℕ → ℕ) → List GlobalVariable → AddrLookup → ℕ → Result GlobalsError (Option ℕ)
bleach_try_get_real_addr address_of m f addr = do
  es ← get_initializer f.sections_array m >>= table_of
  ok (try_get_real_addr addr (map (runtime_section address_of) (take f.sections_count es)))

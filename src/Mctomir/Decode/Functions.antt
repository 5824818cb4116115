-- ===== src/Mctomir/Decode/Functions.antt =====
-- The first part of `process_disassembly`: the functions of the symbol table, ordered by address.
-- `std::ranges::sort` is an insertion sort here; it may order functions of one start otherwise.
pub mod Laws
use mathlib.Core.List.{Perm, append_assoc, append-nil}
use mathlib.Core.List.Perm
use text.Mathlib.Text.{◌==◌ as str_eq}
use llvm_bleach.Base.{
  ℕ, ◌≤◌, ◌≡◌, refl, sym, ap, ◌∙◌, inl, inr, ◌⊎◌, Bool, true, false, ◌&&◌, not, String, List, [],
  ◌∷◌, ◌++◌, Option, none, some, Result, ok, err, ◌>>=◌, leb, add64, arith, Bool-cases,
  Option-cases, All, if◌then◌else◌,
}
use llvm_bleach.Mctomir.Inst.{TranslatedFunction}

pub data SymbolType : Type 0 where
  function_type unknown_type other_type : SymbolType

-- A symbol as `llvm::object::SymbolRef` shows it: what cannot be read is absent.
pub record Symbol : Type 0 where
  pub name : Option String
  pub type : Option SymbolType
  pub value : Option ℕ
  pub size : ℕ
  pub in_elf : Bool

pub data SymbolError : Type 0 where
  unsupported_object_size : SymbolError

abbrev pub is_code : SymbolType → Bool
is_code SymbolType.other_type = false
is_code _ = true

abbrev pub new_function : String → ℕ → ℕ → TranslatedFunction
new_function name start size = record {
  insts = [];
  blocks = [];
  start = start;
  end = add64 start size;
  name = name;
  mfunc = 0;
}

-- `name && type && addr && !name->empty() && …`
unfoldable pub named_code : Symbol → Option (String × ℕ)
named_code s = elim s.name [
  | none ↦ none
  | some n ↦ elim s.type [
    | none ↦ none
    | some t ↦ elim s.value [
      | none ↦ none
      | some a ↦ if not (str_eq n "") && is_code t then some (n, a) else none
    ]
  ]
]

unfoldable pub push_function :
    Symbol
    → Option (String × ℕ)
    → List TranslatedFunction
    → Result SymbolError (List TranslatedFunction)
push_function s none fs = ok fs
push_function s (some (n, a)) fs =
    if s.in_elf
    then ok (fs ++ new_function n a s.size ∷ [])
    else err SymbolError.unsupported_object_size

unfoldable pub collect_functions :
    List Symbol → List TranslatedFunction → Result SymbolError (List TranslatedFunction)
unfolding push_function
collect_functions [] fs = ok fs
collect_functions (s ∷ ss) fs = do fs' ← push_function s (named_code s) fs; collect_functions ss fs'

unfoldable pub insert_by_start :
    TranslatedFunction → List TranslatedFunction → List TranslatedFunction
insert_by_start f [] = f ∷ []
insert_by_start f (g ∷ gs) = if leb f.start g.start then f ∷ g ∷ gs else g ∷ insert_by_start f gs

unfoldable pub sort_by_start : List TranslatedFunction → List TranslatedFunction
sort_by_start [] = []
sort_by_start (f ∷ fs) = insert_by_start f (sort_by_start fs)

unfoldable pub find_functions :
    List Symbol → List TranslatedFunction → Result SymbolError (List TranslatedFunction)
find_functions symbols funcs = do fs ← collect_functions symbols funcs; ok (sort_by_start fs)

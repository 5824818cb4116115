-- ===== src/Formats/Symbols.antt =====
-- The symbol file: include/mctomir/symbols.h, lib/mctomir/symbols.cpp, and the part of
-- tools/mctomir/mctomir.cpp that fills it.
pub mod Laws
use text.Mathlib.Text.{◌==◌ as str_eq}
use llvm_bleach.Base.{
  ℕ, Bool, String, List, [], ◌∷◌, ◌++◌, map, Result, ok, err, ◌>>=◌, or_error, find_if,
}
use llvm_bleach.Mctomir.Inst.{TranslatedFunction}
use llvm_bleach.Formats.Yaml.{Yaml, YamlError, hex_text}

pub record FunctionSymbol : Type 0 where
  pub name : String
  pub start : ℕ
  pub end : ℕ

-- `file_info` is the vector of its symbols.
abbrev pub FileInfo : Type 0
FileInfo = List FunctionSymbol

abbrev pub add : FunctionSymbol → FileInfo → FileInfo
add s info = info ++ s ∷ []

pub data SymbolError : Type 0 where
  -- `Symbol info not found for: …`
  not_found : String → SymbolError

unfoldable pub get_start_of : String → FileInfo → Result SymbolError ℕ
get_start_of func info = do
  found ← or_error (find_if (λ s. str_eq s.name func) info) (not_found func)
  ok found.start

-- The loop over the functions of a translation.
abbrev pub add_functions : List TranslatedFunction → FileInfo → FileInfo
add_functions [] info = info
add_functions (f ∷ funcs) info =
    add_functions funcs (add (record { name = f.name; start = f.start; end = f.end }) info)

module _ {Node Text : Type 0} (y : Yaml Node Text) (utohexstr : ℕ → String) where
  unfoldable pub encode : FunctionSymbol → Node
  encode func = y.mapping (
      ("name", y.scalar func.name)
      ∷ ("start", y.scalar (hex_text utohexstr func.start))
      ∷ ("end", y.scalar (hex_text utohexstr func.end))
      ∷ [])

  unfoldable pub save_to_yaml : FileInfo → Text
  save_to_yaml info = y.emit (y.sequence (map encode info))

module _ {Node Text : Type 0} (y : Yaml Node Text) where
  unfoldable pub load_symbol : Node → Result YamlError FunctionSymbol
  load_symbol symb = do
    name ← y.as_string (y.get symb "name")
    start ← y.as_u64 (y.get symb "start")
    end ← y.as_u64 (y.get symb "end")
    ok (record { name = name; start = start; end = end })

  unfoldable pub load_symbols : List Node → FileInfo → Result YamlError FileInfo
  load_symbols [] syms = ok syms
  load_symbols (symb ∷ symbols) syms = do s ← load_symbol symb; load_symbols symbols (add s syms)

  unfoldable pub load_file_info_from_yaml : Text → Result YamlError FileInfo
  load_file_info_from_yaml yaml = do symbols ← y.load yaml; load_symbols (y.elements symbols) []

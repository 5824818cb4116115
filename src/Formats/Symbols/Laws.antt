-- ===== src/Formats/Symbols/Laws.antt =====
-- The symbols of a translation are read back as they were written.
use mathlib.Core.List.{append_assoc, append-nil}
use llvm_bleach.Base.{
  ℕ, ◌^◌, ◌<◌, ◌≡◌, refl, sym, ap, ◌∙◌, String, List, [], ◌∷◌, ◌++◌, map, ok, All,
}
use llvm_bleach.Mctomir.Inst.{TranslatedFunction}
use llvm_bleach.Formats.Yaml.{Yaml, YamlLaws, keys_differ}
use llvm_bleach.Formats.Symbols.{
  FunctionSymbol, FileInfo, add, add_functions, encode, save_to_yaml, load_symbol, load_symbols,
  load_file_info_from_yaml,
}

-- The addresses of the symbol are 64 bits wide.
abbrev pub Bounded : FunctionSymbol → Type 0
Bounded s = (s.start < 2 ^ 64) × (s.end < 2 ^ 64)

abbrev pub symbol_of : TranslatedFunction → FunctionSymbol
symbol_of f = record { name = f.name; start = f.start; end = f.end }

pub add_functions-map :
    (funcs : List TranslatedFunction) (info : FileInfo)
    → add_functions funcs info ≡ info ++ map symbol_of funcs
add_functions-map [] info = sym (append-nil info)
add_functions-map (f ∷ funcs) info =
    add_functions-map funcs (add (symbol_of f) info)
    ∙ append_assoc info (symbol_of f ∷ []) (map symbol_of funcs)

module _ {Node Text : Type 0} (y : Yaml Node Text) (utohexstr : ℕ → String)
    (laws : YamlLaws y utohexstr) where
  load_symbol-encode :
      (s : FunctionSymbol) → Bounded s → load_symbol y (encode y utohexstr s) ≡ ok s
  unfolding load_symbol encode
  load_symbol-encode s b =
      rw
        (
          laws.get-mapping "name",
          laws.as_string-scalar s.name,
          laws.get-mapping_other "name" "start" _ _ (keys_differ refl),
          laws.get-mapping "start",
          laws.as_u64-hex s.start b.0,
          laws.get-mapping_other "name" "end" _ _ (keys_differ refl),
          laws.get-mapping_other "start" "end" _ _ (keys_differ refl),
          laws.get-mapping "end",
          laws.as_u64-hex s.end b.1,
        )
        refl

  load_symbols-encode :
      (info syms : FileInfo)
      → All Bounded info
      → load_symbols y (map (encode y utohexstr) info) syms ≡ ok (syms ++ info)
  unfolding load_symbols
  load_symbols-encode [] syms h = ap ok (sym (append-nil syms))
  load_symbols-encode (s ∷ info) syms h =
      rw (load_symbol-encode s h.0, load_symbols-encode info (add s syms) h.1)
        (ap ok (append_assoc syms (s ∷ []) info))

  -- For functions with 64-bit addresses, the symbol file that is written for a translation is read
  -- back, without an error, as the name, start and end of each function, in order.
  pub load-save_to_yaml :
      (funcs : List TranslatedFunction)
      → All (λ f. Bounded (symbol_of f)) funcs
      → load_file_info_from_yaml y (save_to_yaml y utohexstr (add_functions funcs []))
        ≡ ok (map symbol_of funcs)
  unfolding load_file_info_from_yaml save_to_yaml
  load-save_to_yaml funcs h =
      rw
        (
          add_functions-map funcs [],
          laws.load-emit (y.sequence (map (encode y utohexstr) (map symbol_of funcs))),
          laws.elements-sequence (map (encode y utohexstr) (map symbol_of funcs)),
        )
        (load_symbols-encode (map symbol_of funcs) [] (All_symbols funcs h))
    where
      All_symbols :
          (fs : List TranslatedFunction)
          → All (λ f. Bounded (symbol_of f)) fs
          → All Bounded (map symbol_of fs)
      All_symbols [] k = tt
      All_symbols (f ∷ fs) k = (k.0, All_symbols fs k.1)

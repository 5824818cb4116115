-- ===== src/Examples/Files.antt =====
-- A small YAML library, and files that are written and read with it.
use text.Mathlib.Text.{◌==◌ as str_eq}
use text.Mathlib.TextEquality.{eq_iff}
use text.Mathlib.TextLemmas.{cons-append, nil-append}
use text.Mathlib.TextPositions.{eq_refl}
use llvm_bleach.Base.{
  ℕ, zero, suc, ◌-◌, ◌≡◌, ◌≢◌, refl, ap, ◌∙◌, inl, inr, Bool, true, false, String, List, [], ◌∷◌,
  map, Option, none, some, Result, ok, err, arith, length, Bool-cases, if◌then◌else◌,
}
use llvm_bleach.Mctomir.Inst.{TranslatedFunction}
use llvm_bleach.Lifter.Control.{Instruction}
use llvm_bleach.Formats.Yaml.{Yaml, YamlError, YamlLaws, hex_text}
use llvm_bleach.Formats.Config.{NamedInstruction, InstrImpl, ConfigError, no_flags}
use llvm_bleach.Formats.Config.File.{
  encode_each, load_instrs, load_from_yaml, save_to_yaml as save_config,
}
use llvm_bleach.Formats.Config.Laws.{Printable, load-encode_each, load_from_yaml-save_to_yaml}

pub data TestNode : Type 0 where
  leaf : String → TestNode
  nothing : TestNode
  element : TestNode → TestNode → TestNode
  entry : String → TestNode → TestNode → TestNode
  missing : TestNode

abbrev digits : String → ℕ
digits String.[] = 0
digits (String.◌∷◌ c s) = suc (digits s)

-- As many ones as the number says.
abbrev pub ones : ℕ → String
ones zero = ""
ones (suc n) = String.◌∷◌ "1" (ones n)

abbrev pub list_of : List TestNode → TestNode
list_of [] = nothing
list_of (n ∷ ns) = element n (list_of ns)

abbrev elements_of : TestNode → List TestNode
elements_of (element n rest) = n ∷ elements_of rest
elements_of _ = []

abbrev pub dict_of : List (String × TestNode) → TestNode
dict_of [] = nothing
dict_of ((k, v) ∷ rest) = entry k v (dict_of rest)

abbrev pairs_of : TestNode → List (TestNode × TestNode)
pairs_of (entry k v rest) = (leaf k, v) ∷ pairs_of rest
pairs_of _ = []

abbrev get_of : TestNode → String → TestNode
get_of (entry k v rest) key = if str_eq k key then v else get_of rest key
get_of _ key = missing

abbrev string_of : TestNode → Result YamlError String
string_of (leaf s) = ok s
string_of _ = err YamlError.bad_conversion

abbrev number_of : TestNode → Result YamlError ℕ
number_of (leaf s) = ok (digits s - 2)
number_of _ = err YamlError.bad_conversion

abbrev is_there : TestNode → Bool
is_there missing = false
is_there _ = true

abbrev is_list : TestNode → Bool
is_list nothing = true
is_list (element n rest) = true
is_list _ = false

abbrev pub yaml : Yaml TestNode TestNode
yaml = record {
  load = λ t. ok t;
  emit = λ n. n;
  scalar = leaf;
  sequence = list_of;
  mapping = dict_of;
  elements = elements_of;
  pairs = pairs_of;
  get = get_of;
  size = λ n. length (pairs_of n);
  is_defined = is_there;
  is_null = λ n. false;
  is_sequence = is_list;
  as_string = string_of;
  as_u64 = number_of;
  as_bool = λ n. err YamlError.bad_conversion;
}

pub yaml-laws : YamlLaws yaml ones
yaml-laws = record {
  load-emit = λ n. refl;
  elements-sequence = elements-list;
  pairs-mapping = pairs-dict;
  size-mapping = λ es. pairs-dict_length es;
  get-mapping = λ k v entries. rw (eq_refl k) refl;
  get-mapping_other = λ k j v entries n. rw (differ k j n) refl;
  get-mapping_nil = λ k. refl;
  scalar_defined = λ s. refl;
  scalar_not_null = λ s. refl;
  as_string-scalar = λ s. refl;
  as_string_undefined = undefined;
  as_u64-hex = λ n h. ap ok (omega (arith, digits-hex n));
}
  where
    elements-list : (ns : List TestNode) → elements_of (list_of ns) ≡ ns
    elements-list [] = refl
    elements-list (n ∷ ns) = ap (◌∷◌ n) (elements-list ns)

    pairs-dict :
        (entries : List (String × TestNode))
        → pairs_of (dict_of entries) ≡ map (λ e. (leaf e.0, e.1)) entries
    pairs-dict [] = refl
    pairs-dict ((k, v) ∷ entries) = ap (◌∷◌ (leaf k, v)) (pairs-dict entries)

    differ : (k j : String) → k ≢ j → str_eq k j ≡ false
    differ k j n = elim (Bool-cases (str_eq k j)) [
      | inl e ↦ absurd (n ((eq_iff k j).0 e))
      | inr e ↦ e
    ]

    undefined : (n : TestNode) → is_there n ≡ false → string_of n ≡ err YamlError.bad_conversion
    undefined (leaf s) h = cc
    undefined nothing h = refl
    undefined (element n rest) h = refl
    undefined (entry k v rest) h = refl
    undefined missing h = refl

    pairs-dict_length : (es : List (String × TestNode)) → length (pairs_of (dict_of es)) ≡ length es
    pairs-dict_length [] = refl
    pairs-dict_length ((k, v) ∷ es) = ap suc (pairs-dict_length es)

    digits-ones : (n : ℕ) → digits (ones n) ≡ n
    digits-ones zero = refl
    digits-ones (suc n) = ap suc (digits-ones n)

    digits-hex : (n : ℕ) → digits (hex_text ones n) ≡ suc (suc n)
    digits-hex n =
        ap digits (cons-append "0" "x" (ones n))
        ∙ ap (λ t. suc (digits t)) (cons-append "x" "" (ones n))
        ∙ ap (λ t. suc (suc (digits t))) (nil-append (ones n))
        ∙ ap (λ k. suc (suc k)) (digits-ones n)

abbrev main_function : TranslatedFunction
main_function = record { insts = []; blocks = []; start = 16; end = 24; name = "main"; mfunc = 0 }

abbrev helper : TranslatedFunction
helper = record { insts = []; blocks = []; start = 24; end = 40; name = "helper"; mfunc = 1 }

-- An IR module is its text.
abbrev parse_text : String → Option String
parse_text s = if str_eq s "bad" then none else some s

abbrev return_flags : Instruction
return_flags = record {
  retinfo = some ("x1" ∷ []);
  is_pc_relative = false;
  is_indirect_branch = true;
}

abbrev jump : NamedInstruction String
jump = record { name = "JALR"; ir_module = some "define jalr"; flags = return_flags }

abbrev config : InstrImpl String
config = record {
  stack_pointer = "X2";
  const_regs = ("X0", 0) ∷ [];
  regclasses = ("X", "X[0-9]+") ∷ [];
  subregisters = [];
  instrs = jump ∷ [];
}

jump-Printable : Printable yaml ones yaml-laws (λ m. m) parse_text jump
jump-Printable = ("define jalr", refl, refl, refl)

load-encode_each_example :
    (nodes : List TestNode) × (encode_each yaml (λ m. m) (jump ∷ []) ≡ ok nodes)
    × (load_instrs yaml parse_text nodes
        ≡ ok (record { name = "JALR"; ir_module = some "define jalr"; flags = no_flags } ∷ []))
load-encode_each_example =
    load-encode_each yaml ones yaml-laws (λ m. m) parse_text (jump ∷ []) (jump-Printable, tt)

load_from_yaml-save_to_yaml_example :
    (text : TestNode) × (save_config yaml (λ m. m) config ≡ ok text)
    × (load_from_yaml yaml parse_text text ≡ err (ConfigError.yaml_error YamlError.bad_conversion))
load_from_yaml-save_to_yaml_example =
    load_from_yaml-save_to_yaml yaml ones yaml-laws (λ m. m) parse_text config (jump-Printable, tt)

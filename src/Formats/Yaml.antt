-- ===== src/Formats/Yaml.antt =====
-- What the code uses of yaml-cpp: parsing and emission, nodes, and their conversions.
use Prim.Native.String.{◌++◌ as append}
use text.Mathlib.Text.{◌==◌ as str_eq}
use text.Mathlib.TextEquality.{eq_iff}
use llvm_bleach.Base.{
  ℕ, ◌^◌, ◌<◌, ◌≡◌, ◌≢◌, Bool, true, false, String, List, [], ◌∷◌, map, length, Result, ok, err,
}

-- `YAML::ParserException`, `YAML::InvalidNode` and `YAML::BadConversion`.
pub data YamlError : Type 0 where
  bad_text bad_conversion : YamlError

-- `get` is the operator that takes a key; without the key its node is not defined.
pub record Yaml (Node Text : Type 0) : Type 0 where
  pub load : Text → Result YamlError Node
  pub emit : Node → Text
  pub scalar : String → Node
  pub sequence : List Node → Node
  pub mapping : List (String × Node) → Node
  pub elements : Node → List Node
  pub pairs : Node → List (Node × Node)
  pub get : Node → String → Node
  pub size : Node → ℕ
  pub is_defined : Node → Bool
  pub is_null : Node → Bool
  pub is_sequence : Node → Bool
  pub as_string : Node → Result YamlError String
  pub as_u64 : Node → Result YamlError ℕ
  pub as_bool : Node → Result YamlError Bool

-- `"0x" + llvm::utohexstr(value)`
abbrev pub hex_text : (ℕ → String) → ℕ → String
hex_text utohexstr value = append "0x" (utohexstr value)

-- A node that is emitted is the one that is parsed; a mapping gives the values of its keys, and a
-- sequence its elements; scalars convert to what they were made of.
pub record YamlLaws {Node Text : Type 0} (y : Yaml Node Text) (utohexstr : ℕ → String)
    : Type 0 where
  pub load-emit : (n : Node) → y.load (y.emit n) ≡ ok n
  pub elements-sequence : (ns : List Node) → y.elements (y.sequence ns) ≡ ns
  pub pairs-mapping :
      (entries : List (String × Node))
      → y.pairs (y.mapping entries) ≡ map (λ e. (y.scalar e.0, e.1)) entries
  pub size-mapping : (entries : List (String × Node)) → y.size (y.mapping entries) ≡ length entries
  pub get-mapping :
      (k : String) (v : Node) (entries : List (String × Node))
      → y.get (y.mapping ((k, v) ∷ entries)) k ≡ v
  pub get-mapping_other :
      (k j : String) (v : Node) (entries : List (String × Node))
      → k ≢ j
      → y.get (y.mapping ((k, v) ∷ entries)) j ≡ y.get (y.mapping entries) j
  pub get-mapping_nil : (k : String) → y.is_defined (y.get (y.mapping []) k) ≡ false
  pub scalar_defined : (s : String) → y.is_defined (y.scalar s) ≡ true
  pub scalar_not_null : (s : String) → y.is_null (y.scalar s) ≡ false
  pub as_string-scalar : (s : String) → y.as_string (y.scalar s) ≡ ok s
  pub as_string_undefined : (n : Node) → y.is_defined n ≡ false → y.as_string n ≡ err bad_conversion
  pub as_u64-hex :
      (value : ℕ) → value < 2 ^ 64 → y.as_u64 (y.scalar (hex_text utohexstr value)) ≡ ok value

pub keys_differ : {k j : String} → str_eq k j ≡ false → k ≢ j
keys_differ {k} {j} n e = cc ((eq_iff k j).1 e, n)

-- ===== src/Formats/Config/Laws.antt =====
-- What is left of the descriptions of instructions when they are written and read.
use text.Mathlib.Text.{◌==◌ as str_eq}
use llvm_bleach.Base.{
  ℕ, ◌≡◌, refl, Bool, false, String, List, [], ◌∷◌, map, Option, none, some, ok, err, All,
}
use llvm_bleach.Lifter.Control.{Instruction}
use llvm_bleach.Formats.Yaml.{Yaml, YamlLaws, keys_differ, bad_conversion}
use llvm_bleach.Formats.Config.{
  NamedInstruction, NormalizedInstruction, InstrImpl, ConfigError, no_flags, normalize,
  denormalize_instruction, encode_instr, decode_func, decode_flag, decode_retinfo, decode_entries,
  decode_instr,
}
use llvm_bleach.Formats.Config.File.{encode_each, save_to_yaml, load_instrs, load_from_yaml}

module _ {Node Text IrModule : Type 0} (y : Yaml Node Text) (utohexstr : ℕ → String)
    (laws : YamlLaws y utohexstr) (print : IrModule → String)
    (parse_ir : String → Option IrModule) where
  -- The body of an instruction that is written has one key.
  absent :
      (func : String) (key : String)
      → str_eq "func" key ≡ false
      → y.is_defined (y.get (y.mapping (("func", y.scalar func) ∷ [])) key) ≡ false
  absent func key n =
      rw (laws.get-mapping_other "func" key (y.scalar func) [] (keys_differ n))
        (laws.get-mapping_nil key)

  decode_func-body :
      (func : String) → decode_func y (y.mapping (("func", y.scalar func) ∷ [])) "" ≡ ok func
  unfolding decode_func
  decode_func-body func =
      rw
        (
          laws.get-mapping "func" (y.scalar func) [],
          laws.scalar_defined func,
          laws.scalar_not_null func,
          laws.as_string-scalar func,
          decode_func,
        )
        refl

  decode_flag-body :
      (func key : String) (default : Bool)
      → str_eq "func" key ≡ false
      → decode_flag y (y.mapping (("func", y.scalar func) ∷ [])) key default ≡ ok default
  unfolding decode_flag
  decode_flag-body func key default n = rw (absent func key n, decode_flag) refl

  decode_retinfo-body :
      (func : String) → decode_retinfo y (y.mapping (("func", y.scalar func) ∷ [])) none ≡ ok none
  unfolding decode_retinfo
  decode_retinfo-body func = rw (absent func "is_return" refl, decode_retinfo) refl

  decode-encode :
      (norm : NormalizedInstruction)
      → decode_instr y (encode_instr y norm)
        ≡ ok (record { name = norm.name; function_str = norm.function_str; flags = no_flags })
  unfolding decode_instr encode_instr decode_entries
  decode-encode norm =
      let body = y.mapping (("func", y.scalar norm.function_str) ∷ []) in
      rw
        (
          laws.size-mapping ((norm.name, body) ∷ []),
          laws.pairs-mapping ((norm.name, body) ∷ []),
          laws.as_string-scalar norm.name,
          decode_func-body norm.function_str,
          decode_flag-body norm.function_str "is_indirect_branch" false refl,
          decode_flag-body norm.function_str "pcrelative" false refl,
          decode_retinfo-body norm.function_str,
        )
        refl

  -- The instruction has a module, which LLVM parses back from its text.
  abbrev pub Printable : NamedInstruction IrModule → Type 0
  Printable i =
      (m : IrModule) × (i.ir_module ≡ some m)
      × (str_eq (print m) "" ≡ false)
      × (parse_ir (print m) ≡ some m)

  normalize-printed :
      (i : NamedInstruction IrModule) (m : IrModule)
      → i.ir_module ≡ some m
      → normalize print i
        ≡ ok (record {
          name = i.name;
          function_str = print m;
          flags = record {
            retinfo = i.flags.retinfo;
            is_pc_relative = false;
            is_indirect_branch = i.flags.is_indirect_branch;
          };
        })
  unfolding normalize
  normalize-printed i m e = rw (e, normalize) refl

  denormalize-printed :
      (name : String) (m : IrModule) (flags : Instruction)
      → str_eq (print m) "" ≡ false
      → parse_ir (print m) ≡ some m
      → denormalize_instruction parse_ir
          (record { name = name; function_str = print m; flags = flags })
        ≡ ok (record { name = name; ir_module = some m; flags = flags })
  unfolding denormalize_instruction
  denormalize-printed name m flags n e = rw (n, e, denormalize_instruction) refl

  abbrev pub drop_flags : NamedInstruction IrModule → NamedInstruction IrModule
  drop_flags i = record i { flags = no_flags }

  -- For instructions that all have a module whose text is not empty and is parsed back as the module:
  -- their nodes are made and load again, in order, with the same names and modules, but every flag and
  -- every description of a return is lost.
  pub load-encode_each :
      (instrs : List (NamedInstruction IrModule))
      → All Printable instrs
      → (nodes : List Node) × (encode_each y print instrs ≡ ok nodes)
        × (load_instrs y parse_ir nodes ≡ ok (map drop_flags instrs))
  unfolding encode_each load_instrs
  load-encode_each [] h = ([], refl, refl)
  load-encode_each (i ∷ instrs) ((m, e, n, p), h) =
      let (nodes, made, loaded) = load-encode_each instrs h in
      let norm : NormalizedInstruction = record {
        name = i.name;
        function_str = print m;
        flags = record {
          retinfo = i.flags.retinfo;
          is_pc_relative = false;
          is_indirect_branch = i.flags.is_indirect_branch;
        };
      } in
      (
        encode_instr y norm ∷ nodes,
        rw (normalize-printed i m e, made) refl,
        rw (decode-encode norm, denormalize-printed i.name m no_flags n p, loaded, e) refl,
      )

  -- For such instructions, what `save_to_yaml` writes is never read back: `load_from_yaml` fails, as
  -- the name of the stack pointer is not in it.
  pub load_from_yaml-save_to_yaml :
      (impl : InstrImpl IrModule)
      → All Printable impl.instrs
      → (yaml : Text) × (save_to_yaml y print impl ≡ ok yaml)
        × (load_from_yaml y parse_ir yaml ≡ err (ConfigError.yaml_error bad_conversion))
  unfolding save_to_yaml load_from_yaml
  load_from_yaml-save_to_yaml impl h =
      let (nodes, made, loaded) = load-encode_each impl.instrs h in
      let conf = y.mapping (("instructions", y.sequence nodes) ∷ []) in
      let none_there : y.is_defined (y.get conf "stack-pointer") ≡ false =
        rw
          (laws.get-mapping_other "instructions" "stack-pointer" (y.sequence nodes) []
            (keys_differ refl))
          (laws.get-mapping_nil "stack-pointer") in
      (
        y.emit conf,
        rw made refl,
        rw (laws.load-emit conf, laws.as_string_undefined (y.get conf "stack-pointer") none_there)
            refl,
      )

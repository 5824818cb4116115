-- ===== src/Formats/Config/File.antt =====
-- `save_to_yaml` and `load_from_yaml` (lib/lifter/instr-impl.cpp).
use text.Mathlib.Text.{◌==◌ as str_eq}
use llvm_bleach.Base.{
  ℕ, String, List, [], ◌∷◌, Option, Result, ok, err, ◌>>=◌, any_of, if◌then◌else◌,
}
use llvm_bleach.Formats.Yaml.{Yaml}
use llvm_bleach.Formats.Config.{
  NamedInstruction, InstrImpl, ConfigError, of_yaml, normalize, denormalize_instruction,
  encode_instr, decode_instr,
}

module _ {Node Text : Type 0} (y : Yaml Node Text) where
  unfoldable pub load_const_regs : List (Node × Node) → Result ConfigError (List (String × ℕ))
  load_const_regs [] = ok []
  load_const_regs ((key, body) ∷ rest) = do
    name ← of_yaml (y.as_string key)
    reg_value ← of_yaml (y.as_u64 body)
    more ← load_const_regs rest
    ok ((name, reg_value) ∷ more)

  unfoldable pub load_regclasses : List (Node × Node) → Result ConfigError (List (String × String))
  load_regclasses [] = ok []
  load_regclasses ((key, body) ∷ rest) = do
    name ← of_yaml (y.as_string key)
    regex ← of_yaml (y.as_string body)
    more ← load_regclasses rest
    ok ((name, regex) ∷ more)

  -- `try_emplace` into an unordered map, which is a list here.
  unfoldable pub load_subregs :
      List (Node × Node) → List (String × String) → Result ConfigError (List (String × String))
  load_subregs [] subregs = ok subregs
  load_subregs ((key, body) ∷ rest) subregs = do
    name ← of_yaml (y.as_string key)
    target ← of_yaml (y.as_string body)
    if any_of (λ e. str_eq e.0 name) subregs
        then err ConfigError.duplicate
        else load_subregs rest ((name, target) ∷ subregs)

module _ {Node Text IrModule : Type 0} (y : Yaml Node Text) where
  -- The instructions in order, as nodes.
  unfoldable pub encode_each :
      (IrModule → String) → List (NamedInstruction IrModule) → Result ConfigError (List Node)
  encode_each print [] = ok []
  encode_each print (i ∷ instrs) = do
    norm ← normalize print i
    rest ← encode_each print instrs
    ok (encode_instr y norm ∷ rest)

  unfoldable pub save_to_yaml : (IrModule → String) → InstrImpl IrModule → Result ConfigError Text
  save_to_yaml print impl = do
    nodes ← encode_each print impl.instrs
    ok (y.emit (y.mapping (("instructions", y.sequence nodes) ∷ [])))

  unfoldable pub load_instrs :
      (String → Option IrModule) → List Node → Result ConfigError (List (NamedInstruction IrModule))
  load_instrs parse_ir [] = ok []
  load_instrs parse_ir (node ∷ nodes) = do
    norm ← decode_instr y node
    instr ← denormalize_instruction parse_ir norm
    rest ← load_instrs parse_ir nodes
    ok (instr ∷ rest)

  unfoldable pub load_from_yaml :
      (String → Option IrModule) → Text → Result ConfigError (InstrImpl IrModule)
  load_from_yaml parse_ir yaml = do
    conf ← of_yaml (y.load yaml)
    stack_pointer ← of_yaml (y.as_string (y.get conf "stack-pointer"))
    const_regs ← load_const_regs y (y.pairs (y.get conf "constant-registers"))
    regclasses ← load_regclasses y (y.pairs (y.get conf "register-classes"))
    subregs ← load_subregs y (y.pairs (y.get conf "subregisters")) []
    instrs ← load_instrs parse_ir (y.elements (y.get conf "instructions"))
    ok (record {
      stack_pointer = stack_pointer;
      const_regs = const_regs;
      regclasses = regclasses;
      subregisters = subregs;
      instrs = instrs;
    })

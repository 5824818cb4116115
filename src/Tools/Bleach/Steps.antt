-- ===== src/Tools/Bleach/Steps.antt =====
-- The steps of `llvm-bleach` in front of its output (tools/llvm-bleach/llvm-bleach.cpp): they write no
-- module, and each has a postcondition for its value and one for its error.
use text.Mathlib.Text.{◌==◌ as str_eq}
use llvm_bleach.Base.{
  ◌≡◌, refl, true, false, Bool-cases, String, List, [], Option, none, some, Option-cases, inl, inr,
  Result, ok, err,
}
use llvm_bleach.Formats.Yaml.{Yaml, YamlError}
use llvm_bleach.Formats.Symbols.{FileInfo, load_file_info_from_yaml}
use llvm_bleach.Formats.Config.{InstrImpl, ConfigError}
use llvm_bleach.Formats.Config.File.{save_to_yaml as save_instructions}
use llvm_bleach.Mctomir.Driver.{TranslationResult, LiftFileError}
use llvm_bleach.Lifter.Globals.{GlobalVariable}
use llvm_bleach.Lifter.Module.{SourceFunction}
use llvm_bleach.Lifter.StateType.{PrintError, print_members}
use llvm_bleach.Lifter.Bleach.{BleachedModule}
use llvm_bleach.Tools.{Sink, lift_result}
use llvm_bleach.Tools.Ends.{Any, Step, Step-lift_result, Step-bind}
use llvm_bleach.Tools.Bleach.{
  Options, InputMir, ToolError, Llvm, read_or_translate_mir, is_mir_file, dump_instructions,
  write_instructions, load_symtab, contents_of, print_machine_functions, print_state_header,
  write_state_header, open_output,
}
use llvm_bleach.Tools.Bleach.Outcome.{is_module, IsTextOf}

module _ {Node Text IrModule Mlir : Type 0} (y : Yaml Node Text) (llvm : Llvm Text IrModule Mlir)
    (Fails : ToolError → Type 0) where
  pub read_or_translate_mir-Step :
      (input_file : String) (lifted : Result LiftFileError TranslationResult)
      (Good : InputMir → Type 0)
      → (str_eq (llvm.extension input_file) ".mir" ≡ true
          → (m : List GlobalVariable × List SourceFunction) → llvm.parse_mir input_file ≡ ok m
          → Good (record { globals = m.0; functions = m.1; funcs = []; sections = [] }))
      → (str_eq (llvm.extension input_file) ".mir" ≡ false
          → (res : TranslationResult) → lifted ≡ ok res
          → Good (record {
            globals = (llvm.module_of res).0;
            functions = (llvm.module_of res).1;
            funcs = res.funcs;
            sections = res.sections;
          }))
      → (str_eq (llvm.extension input_file) ".mir" ≡ true
          → (e : String) → llvm.parse_mir input_file ≡ err e
          → Fails (ToolError.in_mir_parser e))
      → (str_eq (llvm.extension input_file) ".mir" ≡ false
          → (e : LiftFileError) → lifted ≡ err e
          → Fails (ToolError.in_lift e))
      → Step (is_module y llvm) Fails Good (read_or_translate_mir y llvm input_file lifted)
  unfolding read_or_translate_mir
  read_or_translate_mir-Step input_file lifted Good parsed translated no_parse no_lift =
      elim (Bool-cases (is_mir_file y llvm input_file)) [
        | inl e ↦ rw e (
            Step-bind (is_module y llvm) Fails (λ m. llvm.parse_mir input_file ≡ ok m) Good
              (lift_result ToolError.in_mir_parser (llvm.parse_mir input_file)) _
              (Step-lift_result (is_module y llvm) Fails _ ToolError.in_mir_parser
                (llvm.parse_mir input_file) (λ m h. h) (no_parse e))
              λ m h. (tt, parsed e m h))
        | inr e ↦ rw e (
            Step-bind (is_module y llvm) Fails (λ res. lifted ≡ ok res) Good
              (lift_result ToolError.in_lift lifted) _
              (Step-lift_result (is_module y llvm) Fails _ ToolError.in_lift lifted (λ res h. h)
                (no_lift e))
              λ res h. (tt, translated e res h))
      ]

  write_instructions-Step :
      (name : String) (text : Text)
      → (llvm.can_open name ≡ false → Fails (ToolError.cannot_open name))
      → Step (is_module y llvm) Fails Any (write_instructions y llvm name text)
  write_instructions-Step name text fails = elim (Bool-cases (llvm.can_open name)) [
    | inl o ↦ rw o ((refl, tt), tt)
    | inr o ↦ rw o (tt, fails o)
  ]

  pub dump_instructions-Step :
      (options : Options) (instrs : InstrImpl IrModule)
      → ((name : String) (e : ConfigError)
          → options.dump_input_instructions ≡ some name
          → save_instructions y llvm.print_ir instrs ≡ err e
          → Fails (ToolError.in_config e))
      → ((name : String)
          → options.dump_input_instructions ≡ some name
          → llvm.can_open name ≡ false
          → Fails (ToolError.cannot_open name))
      → Step (is_module y llvm) Fails Any (dump_instructions y llvm options instrs)
  unfolding dump_instructions
  dump_instructions-Step options instrs no_text no_file =
      elim (Option-cases options.dump_input_instructions) [
        | inl e ↦ rw e (tt, tt)
        | inr (name, e) ↦ rw e (
            Step-bind (is_module y llvm) Fails Any Any
              (lift_result ToolError.in_config (save_instructions y llvm.print_ir instrs))
              (write_instructions y llvm name)
              (Step-lift_result (is_module y llvm) Fails Any ToolError.in_config
                (save_instructions y llvm.print_ir instrs) (λ a h. tt) (λ f. no_text name f e))
              λ text any. write_instructions-Step name text (no_file name e))
      ]

  pub load_symtab-Step :
      (options : Options) (Good : Option FileInfo → Type 0)
      → (options.symtab_file ≡ none → Good none)
      → ((name : String) (text : Text) (finfo : FileInfo)
          → options.symtab_file ≡ some name
          → IsTextOf y llvm name text
          → load_file_info_from_yaml y text ≡ ok finfo
          → Good (some finfo))
      → ((name : String) (text : Text) (e : YamlError)
          → options.symtab_file ≡ some name
          → IsTextOf y llvm name text
          → load_file_info_from_yaml y text ≡ err e
          → Fails (ToolError.in_symtab e))
      → Step (is_module y llvm) Fails Good (load_symtab y llvm options)
  unfolding load_symtab
  load_symtab-Step options Good absent loaded fails = elim (Option-cases options.symtab_file) [
    | inl e ↦ rw e (tt, absent e)
    | inr (name, e) ↦
        let text = contents_of y llvm name in
        let info = load_file_info_from_yaml y text in
        rw e (
          Step-bind (is_module y llvm) Fails (λ finfo. info ≡ ok finfo) Good
            (lift_result ToolError.in_symtab info) _
            (Step-lift_result (is_module y llvm) Fails _ ToolError.in_symtab info (λ finfo h. h)
              λ f h. fails name text f e (contents_of-IsTextOf name) h)
            λ finfo h. (tt, loaded name text finfo e (contents_of-IsTextOf name) h))
  ]
    where
      contents_of-IsTextOf : (name : String) → IsTextOf y llvm name (contents_of y llvm name)
      contents_of-IsTextOf name = elim (Option-cases (llvm.read_file name)) [
        | inl e ↦ inr (e, rw (e, contents_of) refl)
        | inr (text, e) ↦ inl (rw (e, contents_of) refl)
      ]

  pub print-Step :
      (options : Options) (input : InputMir)
      → Step (is_module y llvm) Fails Any (print_machine_functions y llvm options input)
  print-Step options input = elim (Bool-cases options.dump_input_mir) [
    | inl e ↦ rw e ((refl, tt), tt)
    | inr e ↦ rw e (tt, tt)
  ]

  pub open_output-Step :
      (options : Options)
      → (llvm.can_open options.output_filename ≡ false
          → Fails (ToolError.cannot_open options.output_filename))
      → Step (is_module y llvm) Fails Any (open_output y llvm options)
  open_output-Step options fails = elim (Bool-cases (str_eq options.output_filename "-")) [
    | inl d ↦ rw d (tt, tt)
    | inr d ↦ elim (Bool-cases (llvm.can_open options.output_filename)) [
      | inl o ↦ rw (d, o) (tt, tt)
      | inr o ↦ rw (d, o) (tt, fails o)
    ]
  ]

  module _ (m : BleachedModule)
      (no_print : (e : PrintError)
        → print_members m.stats m.state ≡ err e
        → Fails (ToolError.in_header e)) where
    print_state_header-Step :
        (os : Sink) → Step (is_module y llvm) Fails Any (print_state_header llvm os m)
    print_state_header-Step os =
        Step-bind (is_module y llvm) Fails Any Any
          (lift_result ToolError.in_header (print_members m.stats m.state)) _
          (Step-lift_result (is_module y llvm) Fails Any ToolError.in_header
            (print_members m.stats m.state) (λ a h. tt) no_print)
          λ members any. ((refl, tt), tt)

    pub write_state_header-Step :
        (name : String)
        → (llvm.can_open name ≡ false → Fails (ToolError.no_state_file name))
        → Step (is_module y llvm) Fails Any (write_state_header llvm name m)
    unfolding write_state_header
    write_state_header-Step name fails = elim (Bool-cases (str_eq name "")) [
      | inl n ↦ rw n (tt, tt)
      | inr n ↦ elim (Bool-cases (str_eq name "-")) [
        | inl d ↦ rw (n, d) (print_state_header-Step Sink.standard_output)
        | inr d ↦ elim (Bool-cases (llvm.can_open name)) [
          | inl o ↦ rw (n, d, o) (print_state_header-Step (Sink.file name))
          | inr o ↦ rw (n, d, o) (tt, fails o)
        ]
      ]
    ]

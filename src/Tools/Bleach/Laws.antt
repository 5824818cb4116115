-- ===== src/Tools/Bleach/Laws.antt =====
-- What `llvm-bleach` leaves behind, and the symbol file that the converter writes for it
-- (tools/llvm-bleach/llvm-bleach.cpp, tools/mctomir/mctomir.cpp).
use text.Mathlib.Text.{◌==◌ as str_eq}
use llvm_bleach.Base.{
  ℕ, ◌≡◌, refl, Bool, true, false, String, [], map, All, Option, none, some, inl, inr, Result, ok,
  or_error,
}
use llvm_bleach.Formats.Yaml.{Yaml, YamlLaws}
use llvm_bleach.Formats.Symbols.{FileInfo, add_functions, save_to_yaml, load_file_info_from_yaml}
use llvm_bleach.Formats.Symbols.Laws.{Bounded, symbol_of, load-save_to_yaml}
use llvm_bleach.Formats.Config.{InstrImpl}
use llvm_bleach.Formats.Config.File.{load_from_yaml}
use llvm_bleach.Mctomir.Driver.{TranslationResult, LiftFileError}
use llvm_bleach.Lifter.Bleach.{Settings, BleachedModule, bleach_module}
use llvm_bleach.Tools.{Sink, ◌>>=◌, write, lift_result}
use llvm_bleach.Tools.Ends.{
  Any, EndsWith, Leaves, Step, Step-lift_result, Step-bind, EndsWith-bind, catch_all-Leaves,
}
use llvm_bleach.Tools.Mctomir.{
  save_symtab, Options as ConverterOptions, Content as ConverterContent,
}
use llvm_bleach.Tools.Bleach.{
  Options, InputMir, ToolError, Llvm, Content, read_or_translate_mir, dump_instructions,
  load_symtab, contents_of, print_machine_functions, settings_of, run_passes, write_output,
  write_state_header, run_block_ir_builder, lift_and_write, with_instructions, run, main,
}
use llvm_bleach.Tools.Bleach.Outcome.{
  is_module, IsInput, IsInstructions, IsSymbols, Bleaches, IsOutputOf, IsErrorOf,
}
use llvm_bleach.Tools.Bleach.Output.{Ends, run_passes-IsPassed, write_output-Ends}
use llvm_bleach.Tools.Bleach.Steps.{
  read_or_translate_mir-Step, dump_instructions-Step, load_symtab-Step, print-Step,
  write_state_header-Step,
}

module _ {Node Text IrModule Mlir : Type 0} (y : Yaml Node Text) (llvm : Llvm Text IrModule Mlir)
    (target : Settings) (options : Options) (lifted : Result LiftFileError TranslationResult) where
  abbrev Fails : ToolError → Type 0
  Fails = IsErrorOf y llvm target options lifted

  abbrev Last : Content Text IrModule Mlir → Type 0
  Last = IsOutputOf y llvm target options lifted

  read_file-or_error :
      (name : String)
      → options.instructions_file ≡ some name
      → Step
          (is_module y llvm)
          Fails
          (λ text. llvm.read_file name ≡ some text)
          (lift_result ToolError.cannot_open (or_error (llvm.read_file name) name))
  read_file-or_error name given = go (llvm.read_file name) refl
    where
      go :
          (r : Option Text)
          → llvm.read_file name ≡ r
          → Step
              (is_module y llvm)
              Fails
              (λ text. llvm.read_file name ≡ some text)
              (lift_result ToolError.cannot_open (or_error r name))
      go none e = (tt, IsErrorOf.no_instructions given e)
      go (some text) e = (tt, e)

  run_block_ir_builder-Step :
      (input : InputMir) (instrs : InstrImpl IrModule) (finfo : Option FileInfo)
      → IsInput y llvm target options lifted input
      → IsInstructions y llvm target options lifted instrs
      → IsSymbols y llvm target options lifted finfo
      → Step
          (is_module y llvm)
          Fails
          (λ m. Bleaches y llvm target options lifted (ok m))
          (run_block_ir_builder y llvm (settings_of y llvm target options input instrs finfo) input)
  unfolding run_block_ir_builder
  run_block_ir_builder-Step input instrs finfo i s f =
      let settings = settings_of y llvm target options input instrs finfo in
      let bleached = bleach_module settings input.globals input.functions in
      let Good : BleachedModule → Type 0 = λ m. Bleaches y llvm target options lifted (ok m) in
      Step-bind (is_module y llvm) Fails Good Good (lift_result ToolError.in_bleach bleached) _
        (Step-lift_result (is_module y llvm) Fails Good ToolError.in_bleach bleached
          (λ m e. (input, instrs, finfo, i, s, f, e))
          λ error e. IsErrorOf.in_bleach (input, instrs, finfo, i, s, f, e))
        λ m good.
          Step-bind (is_module y llvm) Fails Any Good
            (write_state_header llvm options.dump_struct_def_option m) _
            (write_state_header-Step y llvm Fails m (λ error e. IsErrorOf.in_header good e)
              options.dump_struct_def_option λ o. IsErrorOf.no_state_file o)
            λ printed any. (tt, good)

  lift_and_write-Ends :
      (input : InputMir) (name : String)
      → IsInput y llvm target options lifted input
      → options.instructions_file ≡ some name
      → Ends y llvm target options lifted (lift_and_write y llvm target options input name)
  unfolding lift_and_write
  lift_and_write-Ends input name i given =
      EndsWith-bind (is_module y llvm) Fails Last (λ text. llvm.read_file name ≡ some text)
        (lift_result ToolError.cannot_open (or_error (llvm.read_file name) name)) _
        (read_file-or_error name given)
        λ text read.
          EndsWith-bind (is_module y llvm) Fails Last (IsInstructions y llvm target options lifted)
            (lift_result ToolError.in_config (load_from_yaml y llvm.parse_ir text)) _
            (Step-lift_result (is_module y llvm) Fails _ ToolError.in_config
              (load_from_yaml y llvm.parse_ir text) (λ instrs e. (name, text, given, read, e))
              λ error e. IsErrorOf.in_config given read e)
            (instructed input i)
    where
      instructed :
          (input : InputMir)
          → IsInput y llvm target options lifted input
          → (instrs : InstrImpl IrModule) → IsInstructions y llvm target options lifted instrs
          → Ends y llvm target options lifted (do
            dumped ← dump_instructions y llvm options instrs
            finfo ← load_symtab y llvm options
            printed ← print_machine_functions y llvm options input
            m ←
                run_block_ir_builder y llvm
                  (settings_of y llvm target options input instrs finfo)
                  input
            write_output y llvm options (run_passes y llvm options m))
      instructed input i instrs s =
          EndsWith-bind (is_module y llvm) Fails Last Any (dump_instructions y llvm options instrs)
            _
            (dump_instructions-Step y llvm Fails options instrs
              (λ n error e h. IsErrorOf.in_dump s e h) λ n e o. IsErrorOf.no_dump e o)
            λ dumped any.
              EndsWith-bind (is_module y llvm) Fails Last (IsSymbols y llvm target options lifted)
                (load_symtab y llvm options) _
                (load_symtab-Step y llvm Fails options (IsSymbols y llvm target options lifted)
                  (λ e. inl (e, refl)) (λ n t finfo e h l. inr (n, t, finfo, e, h, l, refl))
                  λ n t error e h l. IsErrorOf.in_symtab e h l)
                λ finfo f.
                  EndsWith-bind (is_module y llvm) Fails Last Any
                    (print_machine_functions y llvm options input) _
                    (print-Step y llvm Fails options input)
                    λ printed any'.
                      EndsWith-bind (is_module y llvm) Fails Last
                        (λ m. Bleaches y llvm target options lifted (ok m))
                        (run_block_ir_builder y llvm
                          (settings_of y llvm target options input instrs finfo) input)
                        _ (run_block_ir_builder-Step input instrs finfo i s f)
                        λ m h.
                          write_output-Ends y llvm target options lifted
                            (run_passes y llvm options m)
                            (m, h, run_passes-IsPassed y llvm target options lifted m)

  with_instructions-Ends :
      (input : InputMir) (file : Option String)
      → IsInput y llvm target options lifted input
      → options.instructions_file ≡ file
      → Ends y llvm target options lifted (with_instructions y llvm target options input file)
  with_instructions-Ends input none i e =
      EndsWith.finished [] Sink.standard_error Content.skipping tt (IsOutputOf.skipped e)
  with_instructions-Ends input (some name) i e = lift_and_write-Ends input name i e

  run-Ends : Ends y llvm target options lifted (run y llvm target options lifted)
  unfolding run
  run-Ends =
      let Good = IsInput y llvm target options lifted in
      EndsWith-bind (is_module y llvm) Fails Last Good
        (read_or_translate_mir y llvm options.input_file_name lifted) _
        (read_or_translate_mir-Step y llvm Fails options.input_file_name lifted Good
          (λ x m e. inl (x, e, refl, refl)) (λ x res e. inr (x, (res, e, refl, refl, refl)))
          (λ x error e. IsErrorOf.in_mir_parser x e) λ x error e. IsErrorOf.in_lift x e)
        λ input i. with_instructions-Ends input options.instructions_file i refl

-- Either the tool succeeds, and the last thing that it writes is the output of its options: the
-- notice when no file of instructions is given, and else, in the form of the options, the module
-- that `bleach_module` gives for the input (the parsed MIR file, or the translated file), the
-- instructions and the symbols that are in the files of the options, behind the passes; or it fails,
-- and the last thing that it writes is the message of the error of a step that fails. It writes no
-- module before, and none when it fails.
pub main-IsOutputOf :
    {Node Text IrModule Mlir : Type 0} (y : Yaml Node Text) (llvm : Llvm Text IrModule Mlir)
    (target : Settings) (options : Options) (lifted : Result LiftFileError TranslationResult)
    → Leaves
        (is_module y llvm)
        (IsErrorOf y llvm target options lifted)
        (IsOutputOf y llvm target options lifted)
        Content.error_message
        (main y llvm target options lifted)
unfolding main
main-IsOutputOf y llvm target options lifted =
    catch_all-Leaves (is_module y llvm) (IsErrorOf y llvm target options lifted)
      (IsOutputOf y llvm target options lifted) Content.error_message
      (run y llvm target options lifted) (run-Ends y llvm target options lifted)

-- The symbols that the converter saves for a translation, in a file that can be opened and that holds
-- the YAML text that was written when it is read (the newline behind it is no part of the text), are
-- loaded as the name, start and end of each function.
pub load_symtab-save_symtab :
    {Node Text IrModule Mlir : Type 0} (y : Yaml Node Text) (utohexstr : ℕ → String)
    → YamlLaws y utohexstr
    → (llvm : Llvm Text IrModule Mlir) (can_open : String → Bool) (name : String)
      (converter : ConverterOptions) (options : Options) (res : TranslationResult)
    → converter.symbol_table_file ≡ some name
    → options.symtab_file ≡ some name
    → str_eq name "-" ≡ false
    → can_open name ≡ true
    → All (λ f. Bounded (symbol_of f)) res.funcs
    → llvm.read_file name ≡ some (save_to_yaml y utohexstr (add_functions res.funcs []))
    → (save_symtab y utohexstr can_open converter res
        ≡ write
            (Sink.file name)
            (ConverterContent.symtab (save_to_yaml y utohexstr (add_functions res.funcs []))))
      × (load_symtab y llvm options ≡ ([], ok (some (map symbol_of res.funcs))))
unfolding save_symtab load_symtab
load_symtab-save_symtab y utohexstr laws llvm can_open name converter options res saved given ne
      opens bounded holds =
    let text = save_to_yaml y utohexstr (add_functions res.funcs []) in
    let held : contents_of y llvm name ≡ text = rw (holds, contents_of) refl in
    let loaded : load_file_info_from_yaml y (contents_of y llvm name)
        ≡ ok (map symbol_of res.funcs) =
      rw held (load-save_to_yaml y utohexstr laws res.funcs bounded) in
    (rw (saved, ne, opens) refl, rw (given, loaded) refl)

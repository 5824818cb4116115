-- ===== src/Tools/Mctomir.antt =====
-- The converter of ELF files to MIR (tools/mctomir/mctomir.cpp). `Opens` says which files can be opened
-- for writing; the options are as `cl::ParseCommandLineOptions` leaves them.
pub mod Laws
use text.Mathlib.Text.{◌==◌ as str_eq}
use llvm_bleach.Base.{
  ℕ, Bool, true, false, String, List, [], ◌∷◌, Option, none, some, Result, ok, if◌then◌else◌,
}
use llvm_bleach.Formats.Yaml.{Yaml}
use llvm_bleach.Formats.Symbols.{add_functions, save_to_yaml}
use llvm_bleach.Elf.Loader.{Files}
use llvm_bleach.Elf.Target.{Factories}
use llvm_bleach.Mctomir.Convert.{Llvm}
use llvm_bleach.Mctomir.Driver.{
  TranslatorFactories, TranslationResult, LiftFileError, lift_elf_file,
}
use llvm_bleach.Tools.{
  Sink, Tool, Exit, ◌>>=◌, done, write, throw, lift_result, stdout_or_file, catch_all,
}

pub record Options : Type 0 where
  pub input_filename : String
  pub output_filename : String
  pub verbose_output : Bool
  pub symbol_table_file : Option String

pub data ToolError : Type 0 where
  in_lift : LiftFileError → ToolError
  -- `Cannot open file "…"`, for the symbol file, and the message of the error code for the output
  cannot_open : String → ToolError

-- What is written: the symbols, as a text with a newline behind it, the notice about the output, the
-- MIR, and the message of an error.
pub data Content (Text : Type 0) : Type 0 where
  symtab : Text → Content Text
  writing_to : String → Content Text
  mir : TranslationResult → Content Text
  error_message : ToolError → Content Text

module _ {Node Text : Type 0} (y : Yaml Node Text) (utohexstr : ℕ → String)
    (can_open : String → Bool) where
  unfoldable pub save_symtab :
      Options → TranslationResult → Tool (Content Text) ToolError (Unit {0})
  save_symtab options res = elim options.symbol_table_file [
    | none ↦ done
    | some name ↦
        let yaml = Content.symtab (save_to_yaml y utohexstr (add_functions res.funcs [])) in
        if str_eq name "-"
        then write Sink.standard_output yaml
        else if can_open name
        then write (Sink.file name) yaml
        else throw (ToolError.cannot_open name)
  ]

  abbrev pub notify : Options → Tool (Content Text) ToolError (Unit {0})
  notify options =
      if options.verbose_output
      then write Sink.standard_output (Content.writing_to options.output_filename)
      else done

  -- `raw_fd_ostream` takes "-" for the standard output.
  abbrev pub open_output : Options → Tool (Content Text) ToolError Sink
  open_output options =
      let name = options.output_filename in
      if str_eq name "-"
      then ([], ok Sink.standard_output)
      else if can_open name
      then ([], ok (Sink.file name))
      else throw (ToolError.cannot_open name)

  unfoldable pub run :
      Options → Result LiftFileError TranslationResult → Tool (Content Text) ToolError (Unit {0})
  run options lifted = do
    res ← lift_result ToolError.in_lift lifted
    saved ← save_symtab options res
    notified ← notify options
    os ← open_output options
    write os (Content.mir res)

  unfoldable pub main :
      Files → Factories → TranslatorFactories → Llvm → Options → Exit (Content Text)
  main files fs tfs llvm options =
      catch_all Content.error_message
        (run options (lift_elf_file files fs tfs llvm options.input_filename))

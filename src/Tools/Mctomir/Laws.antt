-- ===== src/Tools/Mctomir/Laws.antt =====
-- What the converter leaves behind (tools/mctomir/mctomir.cpp).
use text.Mathlib.Text.{◌==◌ as str_eq}
use llvm_bleach.Base.{
  ℕ, ◌≡◌, refl, Bool, true, false, Bool-cases, String, [], Option-cases, some, inl, inr, Result, ok,
  err,
}
use llvm_bleach.Formats.Yaml.{Yaml}
use llvm_bleach.Elf.Loader.{Files}
use llvm_bleach.Elf.Target.{Factories}
use llvm_bleach.Mctomir.Convert.{Llvm}
use llvm_bleach.Mctomir.Driver.{
  TranslatorFactories, TranslationResult, LiftFileError, lift_elf_file,
}
use llvm_bleach.Tools.{lift_result}
use llvm_bleach.Tools.Ends.{
  Any, EndsWith, Leaves, Step, Step-lift_result, EndsWith-bind, catch_all-Leaves,
}
use llvm_bleach.Tools.Mctomir.{
  Options, ToolError, Content, save_symtab, notify, open_output, run, main,
}

module _ {Text : Type 0} where
  abbrev pub is_mir : Content Text → Bool
  is_mir (Content.mir res) = true
  is_mir _ = false

  -- The MIR of the file that was lifted.
  abbrev pub IsMirOf : Result LiftFileError TranslationResult → Content Text → Type 0
  IsMirOf lifted c = (res : TranslationResult) × (lifted ≡ ok res) × (c ≡ Content.mir res)

  module _ {Node : Type 0} (y : Yaml Node Text) (utohexstr : ℕ → String) (can_open : String → Bool)
      (options : Options) (Fails : ToolError → Type 0) where
    save_symtab-Step :
        (res : TranslationResult)
        → ((name : String)
            → options.symbol_table_file ≡ some name
            → can_open name ≡ false
            → Fails (ToolError.cannot_open name))
        → Step is_mir Fails Any (save_symtab y utohexstr can_open options res)
    unfolding save_symtab
    save_symtab-Step res fails = elim (Option-cases options.symbol_table_file) [
      | inl e ↦ rw e (tt, tt)
      | inr (name, e) ↦ elim (Bool-cases (str_eq name "-")) [
        | inl d ↦ rw (e, d) ((refl, tt), tt)
        | inr d ↦ elim (Bool-cases (can_open name)) [
          | inl o ↦ rw (e, d, o) ((refl, tt), tt)
          | inr o ↦ rw (e, d, o) (tt, fails name e o)
        ]
      ]
    ]

    notify-Step : Step is_mir Fails Any (notify y utohexstr can_open options)
    notify-Step = elim (Bool-cases options.verbose_output) [
      | inl e ↦ rw e ((refl, tt), tt)
      | inr e ↦ rw e (tt, tt)
    ]

    open_output-Step :
        (can_open options.output_filename ≡ false
          → Fails (ToolError.cannot_open options.output_filename))
        → Step is_mir Fails Any (open_output y utohexstr can_open options)
    open_output-Step fails = elim (Bool-cases (str_eq options.output_filename "-")) [
      | inl d ↦ rw d (tt, tt)
      | inr d ↦ elim (Bool-cases (can_open options.output_filename)) [
        | inl o ↦ rw (d, o) (tt, tt)
        | inr o ↦ rw (d, o) (tt, fails o)
      ]
    ]

  module _ {Node : Type 0} (y : Yaml Node Text) (utohexstr : ℕ → String) (can_open : String → Bool)
      (options : Options) (lifted : Result LiftFileError TranslationResult) where
    -- The file is not lifted, or a file that is to be written cannot be opened.
    pub data IsErrorOf : ToolError → Type 0 where
      not_lifted : {e : LiftFileError} → lifted ≡ err e → IsErrorOf (ToolError.in_lift e)
      no_symtab :
          {name : String}
          → options.symbol_table_file ≡ some name
          → can_open name ≡ false
          → IsErrorOf (ToolError.cannot_open name)
      no_output :
          can_open options.output_filename ≡ false
          → IsErrorOf (ToolError.cannot_open options.output_filename)

    run-EndsWith :
        EndsWith is_mir IsErrorOf (IsMirOf lifted) (run y utohexstr can_open options lifted)
    unfolding run
    run-EndsWith =
        let Last = IsMirOf lifted in
        EndsWith-bind is_mir IsErrorOf Last (λ res. lifted ≡ ok res)
          (lift_result ToolError.in_lift lifted) _
          (Step-lift_result is_mir IsErrorOf (λ res. lifted ≡ ok res) ToolError.in_lift lifted
            (λ res e. e) (λ e h. IsErrorOf.not_lifted h))
          λ res e.
            EndsWith-bind is_mir IsErrorOf Last Any (save_symtab y utohexstr can_open options res) _
              (save_symtab-Step y utohexstr can_open options IsErrorOf res
                λ name h o. IsErrorOf.no_symtab h o)
              λ saved e₁.
                EndsWith-bind is_mir IsErrorOf Last Any (notify y utohexstr can_open options) _
                  (notify-Step y utohexstr can_open options IsErrorOf)
                  λ notified e₂.
                    EndsWith-bind is_mir IsErrorOf Last Any
                      (open_output y utohexstr can_open options) _
                      (open_output-Step y utohexstr can_open options IsErrorOf
                        λ o. IsErrorOf.no_output o)
                      λ os e₃. EndsWith.finished [] os (Content.mir res) tt (res, e, refl)

  -- Either the file is lifted, the converter succeeds, and the last thing that it writes is the
  -- MIR of the translation, which it writes once; or it fails, the last thing that it writes is the
  -- message of the error, and it writes no MIR. The error is that of the lifting, or of a file that
  -- is to be written and cannot be opened.
  pub main-Leaves :
      {Node : Type 0} (y : Yaml Node Text) (utohexstr : ℕ → String) (can_open : String → Bool)
      (files : Files) (fs : Factories) (tfs : TranslatorFactories) (llvm : Llvm) (options : Options)
      → let lifted = lift_elf_file files fs tfs llvm options.input_filename in
        Leaves is_mir
          (IsErrorOf y utohexstr can_open options lifted)
          (IsMirOf lifted)
          Content.error_message
          (main y utohexstr can_open files fs tfs llvm options)
  unfolding main
  main-Leaves y utohexstr can_open files fs tfs llvm options =
      let lifted = lift_elf_file files fs tfs llvm options.input_filename in
      catch_all-Leaves is_mir (IsErrorOf y utohexstr can_open options lifted) (IsMirOf lifted)
        Content.error_message (run y utohexstr can_open options lifted)
        (run-EndsWith y utohexstr can_open options lifted)

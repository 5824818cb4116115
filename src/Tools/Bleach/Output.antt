-- ===== src/Tools/Bleach/Output.antt =====
-- The output of `llvm-bleach`: the passes, the form of the module, and the file
-- (tools/llvm-bleach/llvm-bleach.cpp).
use llvm_bleach.Base.{◌≡◌, refl, Bool-cases, [], Option, none, some, inl, inr, Result, ok}
use llvm_bleach.Formats.Yaml.{Yaml}
use llvm_bleach.Mctomir.Driver.{TranslationResult, LiftFileError}
use llvm_bleach.Lifter.Bleach.{Settings, BleachedModule}
use llvm_bleach.Tools.{Tool, ◌>>=◌, write, throw}
use llvm_bleach.Tools.Ends.{Any, EndsWith, EndsWith-bind}
use llvm_bleach.Tools.Bleach.{
  Options, OutputType, ToolError, Llvm, Content, run_passes, output_content, open_output,
  write_output,
}
use llvm_bleach.Tools.Bleach.Outcome.{is_module, IsPassed, IsLifted, IsOutputOf, IsErrorOf}
use llvm_bleach.Tools.Bleach.Steps.{open_output-Step}

module _ {Node Text IrModule Mlir : Type 0} (y : Yaml Node Text) (llvm : Llvm Text IrModule Mlir)
    (target : Settings) (options : Options) (lifted : Result LiftFileError TranslationResult) where
  abbrev Fails : ToolError → Type 0
  Fails = IsErrorOf y llvm target options lifted

  abbrev Last : Content Text IrModule Mlir → Type 0
  Last = IsOutputOf y llvm target options lifted

  abbrev pub Ends : Tool (Content Text IrModule Mlir) ToolError (Unit {0}) → Type 0
  Ends t = EndsWith (is_module y llvm) Fails Last t

  pub run_passes-IsPassed :
      (m : BleachedModule) → IsPassed y llvm target options lifted m (run_passes y llvm options m)
  run_passes-IsPassed m = elim (Bool-cases options.no_inline_opt) [
    | inl e ↦ inl (e, rw (e, run_passes) refl)
    | inr e ↦ inr (e, rw (e, run_passes) refl)
  ]

  pub write_output-Ends :
      (ir : IrModule)
      → IsLifted y llvm target options lifted ir
      → Ends (write_output y llvm options ir)
  unfolding write_output
  write_output-Ends ir is = go options.output_type refl
    where
      finish :
          (c : Content Text IrModule Mlir)
          → Last c
          → Ends (open_output y llvm options >>= λ os. write os c)
      finish c h =
          EndsWith-bind (is_module y llvm) Fails Last Any (open_output y llvm options) _
            (open_output-Step y llvm Fails options λ o. IsErrorOf.no_output o)
            λ os any. EndsWith.finished [] os c tt h

      go :
          (ty : OutputType)
          → options.output_type ≡ ty
          → Ends
              (output_content y llvm ty ir >>= λ c. open_output y llvm options >>= λ os. write os c)
      go OutputType.llvm t = finish (Content.ir_module ir) (IsOutputOf.as_llvm t is)
      go OutputType.mlirllvm t = translated (llvm.translate ir) refl
        where
          translated :
              (r : Option Mlir)
              → llvm.translate ir ≡ r
              → Ends (
                  (elim r [
                    | some mlir ↦ ([], ok (Content.mlir_module mlir))
                    | none ↦ throw ToolError.no_mlir
                  ])
                  >>= λ c. open_output y llvm options >>= λ os. write os c)
          translated none e = EndsWith.failed tt (IsErrorOf.no_mlir t is e)
          translated (some mlir) e = finish (Content.mlir_module mlir) (IsOutputOf.as_mlir t is e)

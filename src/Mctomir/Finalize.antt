-- ===== src/Mctomir/Finalize.antt =====
-- `translator_t::finalize` (lib/mctomir/mctomir-transform.cpp): the four passes in order.
pub mod Closed
pub mod Whole
use llvm_bleach.Base.{List, [], Result, ok, err, ◌>>=◌}
use llvm_bleach.Mctomir.Inst.{InstrAnalysis, TranslatedFunction}
use llvm_bleach.Mctomir.Machine.{Machine}
use llvm_bleach.Mctomir.Blocks.{BlockError, identify_basic_blocks}
use llvm_bleach.Mctomir.Translate.{
  InstrInfo, TranslateError, create_machine_basic_blocks, translate_instructions,
}
use llvm_bleach.Mctomir.Link.{link_machine_basic_blocks}

pub data FinalizeError : Type 0 where
  in_blocks : BlockError → FinalizeError
  in_machine : TranslateError → FinalizeError

abbrev pub lift_error {ℓ κ} :
    {E : Type ℓ} {A : Type κ} → (E → FinalizeError) → Result E A → Result FinalizeError A
lift_error wrap (ok a) = ok a
lift_error wrap (err e) = err (wrap e)

-- Behind the first pass, which also clears the address map.
unfoldable pub build_machine :
    InstrAnalysis → InstrInfo → List TranslatedFunction → Machine → Result TranslateError Machine
build_machine mia info fs m = do
  m' ← translate_instructions mia info fs m
  link_machine_basic_blocks mia fs m'

unfoldable pub finalize :
    InstrAnalysis
    → InstrInfo
    → List TranslatedFunction
    → Machine
    → Result FinalizeError (List TranslatedFunction × Machine)
finalize mia info fs m = do
  fs' ← lift_error in_blocks (identify_basic_blocks mia fs)
  let made = create_machine_basic_blocks fs' (record m { address_to_mbb = [] })
  m' ← lift_error in_machine (build_machine mia info made.0 made.1)
  ok (made.0, m')

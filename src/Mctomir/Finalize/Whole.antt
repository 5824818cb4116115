-- ===== src/Mctomir/Finalize/Whole.antt =====
-- Behind the passes the blocks of a function hold its instructions.
use llvm_bleach.Base.{
  ◌≡◌, refl, ap, ◌∙◌, List, [], ◌∷◌, ◌++◌, ℕ, Result, ok, err, All, Ensures, Ensures-bind,
  Ensures-any,
}
use llvm_bleach.Mctomir.Inst.{InstrAnalysis, TranslatedBlock, TranslatedFunction}
use llvm_bleach.Mctomir.Machine.{Machine, add_block}
use llvm_bleach.Mctomir.Translate.{InstrInfo, create_blocks, create_machine_basic_blocks}
use llvm_bleach.Mctomir.Blocks.{BlockError, identify_function, identify_basic_blocks}
use llvm_bleach.Mctomir.Blocks.Partition.{instrs_of, split_function-IsPartition}
use llvm_bleach.Mctomir.Finalize.{in_blocks, in_machine, lift_error, build_machine, finalize}

-- The blocks hold the instructions, in order.
abbrev pub IsWhole : TranslatedFunction → Type 0
IsWhole f = instrs_of f.blocks ≡ f.insts

abbrev pub IsFresh : TranslatedFunction → Type 0
IsFresh f = f.blocks ≡ []

create_blocks-instrs_of :
    (mfunc : ℕ) (bs : List TranslatedBlock) (m : Machine)
    → instrs_of (create_blocks mfunc bs m).0 ≡ instrs_of bs
unfolding create_blocks
create_blocks-instrs_of mfunc [] m = refl
create_blocks-instrs_of mfunc (b ∷ bs) m =
    ap (◌++◌ b.instrs) (create_blocks-instrs_of mfunc bs (add_block m mfunc b.start_address))

create-IsWhole :
    (fs : List TranslatedFunction) (m : Machine)
    → All IsWhole fs
    → All IsWhole (create_machine_basic_blocks fs m).0
unfolding create_machine_basic_blocks
create-IsWhole [] m h = tt
create-IsWhole (f ∷ fs) m h = (
  create_blocks-instrs_of f.mfunc f.blocks m ∙ h.0,
  create-IsWhole fs (create_blocks f.mfunc f.blocks m).1 h.1,
)

module _ (mia : InstrAnalysis) where
  identify_function-IsWhole :
      (f : TranslatedFunction) → IsFresh f → Ensures IsWhole (identify_function mia f)
  unfolding identify_function
  identify_function-IsWhole f fresh =
      let (bs, run, p) = split_function-IsPartition mia f.insts in rw (fresh, run) p.covers

  identify-IsWhole :
      (fs : List TranslatedFunction)
      → All IsFresh fs
      → Ensures (All IsWhole) (identify_basic_blocks mia fs)
  unfolding identify_basic_blocks
  identify-IsWhole [] h = tt
  identify-IsWhole (f ∷ fs) h =
      Ensures-bind IsWhole (All IsWhole) (identify_function mia f) _
        (identify_function-IsWhole f h.0)
        (λ g hg.
          Ensures-bind (All IsWhole) (All IsWhole) (identify_basic_blocks mia fs) _
            (identify-IsWhole fs h.1) (λ gs hgs. (hg, hgs)))

lifted :
    (P : List TranslatedFunction → Type 0) (m : Result BlockError (List TranslatedFunction))
    → Ensures P m
    → Ensures P (lift_error in_blocks m)
lifted P (ok a) h = h
lifted P (err e) h = tt

-- From functions with no blocks yet the passes give functions whose blocks hold exactly their
-- instructions, in order; or an error is reported.
pub finalize-IsWhole :
    (mia : InstrAnalysis) (info : InstrInfo) (fs : List TranslatedFunction) (m : Machine)
    → All IsFresh fs
    → Ensures (λ r. All IsWhole r.0) (finalize mia info fs m)
unfolding finalize
finalize-IsWhole mia info fs m h =
    Ensures-bind (All IsWhole) (λ r. All IsWhole r.0)
      (lift_error in_blocks (identify_basic_blocks mia fs)) _
      (lifted (All IsWhole) (identify_basic_blocks mia fs) (identify-IsWhole mia fs h))
      (λ fs' hfs.
        let made = create_machine_basic_blocks fs' (record m { address_to_mbb = [] }) in
        Ensures-bind (λ _. Unit {0}) (λ r. All IsWhole r.0)
          (lift_error in_machine (build_machine mia info made.0 made.1)) _ (Ensures-any _)
          (λ m' u. create-IsWhole fs' (record m { address_to_mbb = [] }) hfs))

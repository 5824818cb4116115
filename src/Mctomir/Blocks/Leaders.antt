-- ===== src/Mctomir/Blocks/Leaders.antt =====
-- What becomes a leader.
use llvm_bleach.Base.{ℕ, ◌≡◌, true, ◌||◌, List, [], ◌∷◌, ◌++◌, some, arith, is_contained, ==_refl}
use llvm_bleach.Mctomir.Inst.{InstrAnalysis, TranslatedInst}
use llvm_bleach.Mctomir.Blocks.{scan_inst, scan_insts, find_leaders}

-- Leaders are never taken back.
scan_inst-keep :
    (mia : InstrAnalysis) (t : TranslatedInst) (rest : List TranslatedInst) (leaders : List ℕ)
    (a : ℕ)
    → is_contained a leaders ≡ true
    → is_contained a (scan_inst mia t rest leaders) ≡ true
unfolding scan_inst
scan_inst-keep mia t [] leaders a h = ground arith
scan_inst-keep mia t (n ∷ rest) leaders a h = ground arith

scan_insts-keep :
    (mia : InstrAnalysis) (insts : List TranslatedInst) (leaders : List ℕ) (a : ℕ)
    → is_contained a leaders ≡ true
    → is_contained a (scan_insts mia insts leaders) ≡ true
unfolding scan_insts
scan_insts-keep mia [] leaders a h = h
scan_insts-keep mia (t ∷ rest) leaders a h =
    scan_insts-keep mia rest _ a (scan_inst-keep mia t rest leaders a h)

-- The first instruction is a leader.
pub find_leaders_first :
    (mia : InstrAnalysis) (t : TranslatedInst) (rest : List TranslatedInst)
    → is_contained t.address (find_leaders mia (t ∷ rest)) ≡ true
unfolding find_leaders
find_leaders_first mia t rest =
    scan_insts-keep mia (t ∷ rest) _ t.address (ground (arith, ==_refl t.address))

-- The instruction behind a branch or a return is a leader.
scan_insts_next :
    (mia : InstrAnalysis) (before : List TranslatedInst) (t n : TranslatedInst)
    (after : List TranslatedInst) (leaders : List ℕ)
    → (mia.is_branch t.inst || mia.is_return t.inst) ≡ true
    → is_contained n.address (scan_insts mia (before ++ (t ∷ n ∷ after)) leaders) ≡ true
unfolding scan_insts scan_inst
scan_insts_next mia [] t n after leaders h =
    scan_insts-keep mia (n ∷ after) _ n.address (ground (arith, ==_refl n.address))
scan_insts_next mia (b ∷ before) t n after leaders h = scan_insts_next mia before t n after _ h

-- The target of a branch is a leader.
scan_insts_target :
    (mia : InstrAnalysis) (before : List TranslatedInst) (t : TranslatedInst)
    (after : List TranslatedInst) (leaders : List ℕ) (target : ℕ)
    → mia.is_branch t.inst ≡ true
    → mia.evaluate_branch t.inst t.address 0 ≡ some target
    → is_contained target (scan_insts mia (before ++ (t ∷ after)) leaders) ≡ true
unfolding scan_insts scan_inst
scan_insts_target mia [] t [] leaders target h e =
    scan_insts-keep mia [] _ target (ground (arith, ==_refl target))
scan_insts_target mia [] t (n ∷ after) leaders target h e =
    scan_insts-keep mia (n ∷ after) _ target (ground (arith, ==_refl target))
scan_insts_target mia (b ∷ before) t after leaders target h e =
    scan_insts_target mia before t after _ target h e

module _ (mia : InstrAnalysis) (before : List TranslatedInst) (t : TranslatedInst) where
  pub find_leaders_next :
      (n : TranslatedInst) (after : List TranslatedInst)
      → (mia.is_branch t.inst || mia.is_return t.inst) ≡ true
      → is_contained n.address (find_leaders mia (before ++ (t ∷ n ∷ after))) ≡ true
  unfolding find_leaders
  find_leaders_next n after h = scan_insts_next mia before t n after _ h

  pub find_leaders_target :
      (after : List TranslatedInst) (target : ℕ)
      → mia.is_branch t.inst ≡ true
      → mia.evaluate_branch t.inst t.address 0 ≡ some target
      → is_contained target (find_leaders mia (before ++ (t ∷ after))) ≡ true
  unfolding find_leaders
  find_leaders_target after target h e = scan_insts_target mia before t after _ target h e

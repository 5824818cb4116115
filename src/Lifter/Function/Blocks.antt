-- ===== src/Lifter/Function/Blocks.antt =====
-- The code of a lifted function is that of its machine blocks, one after the other.
use llvm_bleach.Base.{
  map_error, Ensures-map_error, ℕ, suc, ◌≡◌, refl, sym, ap, subst, false, String, List, [], ◌∷◌,
  map, Option, none, some, or_error, All, get_elem?, Ensures, Ensures-bind, Ensures-imp,
  Ensures-any,
}
use llvm_bleach.Mctomir.Inst.{TranslatedInst, TranslatedBlock}
use llvm_bleach.Mctomir.Machine.{MachineInstr}
use llvm_bleach.Lifter.Control.{Queries, Emit, IrBlock, is_indirect_branch}
use llvm_bleach.Lifter.Generate.{fill_ir_for_bb, last_of}
use llvm_bleach.Lifter.Generate.Terminators.{
  EndsOnce, IsStraight, StraightBefore, fill_ir_for_bb-EndsOnce,
}
use llvm_bleach.Lifter.Function.{
  FunctionError, MachineCode, known_addresses, with_addresses, first_id, fill_blocks,
  generate_function,
}

-- What `s'` has more than `s` is the code of these blocks, in order, each in one IR block with one
-- terminator at its end.
abbrev pub BlocksEnd : List MachineCode → Emit → Emit → Type 0
BlocksEnd [] s s' = s'.out ≡ s.out
BlocksEnd (b ∷ bs) s s' = (s1 : Emit) × EndsOnce (IrBlock.of_mbb b.id) s s1 × BlocksEnd bs s1 s'

-- All instructions but the last are no branches or returns, and the last is no indirect branch.
abbrev pub IsLiftable : Queries → List MachineInstr → Type 0
IsLiftable q [] = Unit
IsLiftable q (i ∷ []) = is_indirect_branch q i ≡ false
IsLiftable q (i ∷ j ∷ is) = IsStraight q i × IsLiftable q (j ∷ is)

abbrev instrs_of : List (Option ℕ × MachineInstr) → List MachineInstr
instrs_of insts = map (λ p. p.1) insts

known_addresses_same :
    (insts : List TranslatedInst) (is : List MachineInstr)
    → Ensures (λ pairs. instrs_of pairs ≡ is) (known_addresses insts is)
unfolding known_addresses
known_addresses_same insts [] = refl
known_addresses_same [] (i ∷ is) = tt
known_addresses_same (t ∷ insts) (i ∷ is) =
    Ensures-bind _ _ (known_addresses insts is) _ (known_addresses_same insts is)
      (λ rest e. ap (◌∷◌ i) e)

with_addresses_same :
    (trblocks : Option (List TranslatedBlock)) (idx : ℕ) (is : List MachineInstr)
    → Ensures (λ pairs. instrs_of pairs ≡ is) (with_addresses trblocks idx is)
unfolding with_addresses
with_addresses_same none idx is = without is
  where
    without : (js : List MachineInstr) → instrs_of (map (λ i. (none, i)) js) ≡ js
    without [] = refl
    without (j ∷ js) = ap (◌∷◌ j) (without js)
with_addresses_same (some blocks) idx is =
    Ensures-bind _ _ (or_error (get_elem? blocks idx) FunctionError.out_of_range) _ (Ensures-any _)
      (λ b u. known_addresses_same b.instrs is)

module _ (q : Queries) where
  liftable_parts :
      (a : Option ℕ) (i : MachineInstr) (insts : List (Option ℕ × MachineInstr))
      → IsLiftable q (i ∷ instrs_of insts)
      → StraightBefore q ((a, i) ∷ insts) × (is_indirect_branch q (last_of i insts) ≡ false)
  liftable_parts a i [] h = (tt, h)
  liftable_parts a i ((b, j) ∷ insts) h =
      let (straight, last) = liftable_parts b j insts h.1 in ((h.0, straight), last)

  lifted-EndsOnce :
      (b : ℕ) (next : Option ℕ) (insts : List (Option ℕ × MachineInstr)) (s : Emit)
      → IsLiftable q (instrs_of insts)
      → Ensures
          (EndsOnce (IrBlock.of_mbb b) s)
          (map_error FunctionError.lift_error (fill_ir_for_bb q b next insts s))
  unfolding fill_ir_for_bb
  lifted-EndsOnce b next [] s h = tt
  lifted-EndsOnce b next ((a, i) ∷ insts) s h =
      let (straight, last) = liftable_parts a i insts h in
      Ensures-map_error FunctionError.lift_error _ (fill_ir_for_bb q b next ((a, i) ∷ insts) s)
        (fill_ir_for_bb-EndsOnce q b next a i insts s straight last)

  fill_blocks-BlocksEnd :
      (trblocks : Option (List TranslatedBlock)) (idx : ℕ) (bs : List MachineCode) (s : Emit)
      → All (λ b. IsLiftable q b.instrs) bs
      → Ensures (BlocksEnd bs s) (fill_blocks q trblocks idx bs s)
  unfolding fill_blocks
  fill_blocks-BlocksEnd trblocks idx [] s h = refl
  fill_blocks-BlocksEnd trblocks idx (b ∷ bs) s h =
      Ensures-bind _ _ (with_addresses trblocks idx b.instrs) _
        (with_addresses_same trblocks idx b.instrs)
        (λ insts e.
          Ensures-bind (EndsOnce (IrBlock.of_mbb b.id) s) _
            (map_error FunctionError.lift_error (fill_ir_for_bb q b.id (first_id bs) insts s)) _
            (lifted-EndsOnce b.id (first_id bs) insts s (subst (IsLiftable q) (sym e) h.0))
            (λ s1 ends.
              Ensures-imp (BlocksEnd bs s1) (BlocksEnd (b ∷ bs) s)
                (fill_blocks q trblocks (suc idx) bs s1) (λ s2 rest. (s1, ends, rest))
                (fill_blocks-BlocksEnd trblocks (suc idx) bs s1 h.1)))

  -- For machine blocks whose instructions, except perhaps the last, are no branches or returns, and
  -- whose last is no indirect branch: either an error is reported, or the code that is made for a
  -- function is, in the order of its machine blocks, that of each, in the block's own IR block only
  -- and with one terminator, at its end.
  pub generate_function-BlocksEnd :
      (sp_reg : Option ℕ) (sp_name : String) (trblocks : Option (List TranslatedBlock))
      (blocks : List MachineCode) (s : Emit)
      → All (λ b. IsLiftable q b.instrs) blocks
      → Ensures (BlocksEnd blocks s) (generate_function q sp_reg sp_name trblocks blocks s)
  unfolding generate_function
  generate_function-BlocksEnd none sp_name trblocks blocks s h = tt
  generate_function-BlocksEnd (some sp) sp_name trblocks blocks s h =
      Ensures-imp (BlocksEnd blocks (record s { tracker = sp ∷ [] })) (BlocksEnd blocks s)
        (fill_blocks q trblocks 0 blocks (record s { tracker = sp ∷ [] })) (same blocks)
        (fill_blocks-BlocksEnd trblocks 0 blocks (record s { tracker = sp ∷ [] }) h)
    where
      same :
          (bs : List MachineCode) (s' : Emit)
          → BlocksEnd bs (record s { tracker = sp ∷ [] }) s'
          → BlocksEnd bs s s'
      same [] s' k = k
      same (b ∷ bs) s' (s1, ends, rest) = (
        s1,
        record {
          body = ends.body;
          last = ends.last;
          out = ends.out;
          plain = ends.plain;
          terminates = ends.terminates;
        },
        rest,
      )

-- ===== src/Mctomir/Translate/Count.antt =====
-- Translation makes one machine instruction for each instruction of a block, in its own block.
use mathlib.Core.Option
use llvm_bleach.Base.{
  ℕ, suc, ◌+◌, ◌<◌, ◌≤◌, ◌≡◌, ◌≢◌, refl, sym, ap, ◌∙◌, subst, List, [], ◌∷◌, ◌++◌, Option, none,
  some, ok, ◌>>=◌, or_error, >>=-eq-ok, >>=_congr, >>=_assoc, length, length-append, arith,
}
use llvm_bleach.Mctomir.Inst.{InstrAnalysis, TranslatedInst, TranslatedBlock, TranslatedFunction}
use llvm_bleach.Mctomir.Machine.{
  Machine, MachineBlock, block_at, update_block, add_block, empty_block,
}
use llvm_bleach.Mctomir.Machine.Laws.{get_elem?-update_at_self, get_elem?-update_at_ne}
use llvm_bleach.Mctomir.Translate.{
  InstrInfo, TranslateError, Built, build_instr, insert_built, create_machine_instr,
  translate_block, translate_blocks, translate_instructions, create_blocks,
}

abbrev pub count_instrs : Option MachineBlock → ℕ
count_instrs none = 0
count_instrs (some b) = length b.instrs

insert_built-count :
    (x : Built) (b : MachineBlock) → length (insert_built x b).instrs ≡ suc (length b.instrs)
insert_built-count (i, none) b = omega (arith, length-append b.instrs (i ∷ []))
insert_built-count (i, some s) b = omega (arith, length-append b.instrs (i ∷ []))

-- `m'` has `n` more instructions in the block `id`, and is `m` elsewhere.
pub record Grows (id n : ℕ) (m m' : Machine) : Type 0 where
  pub here : count_instrs (block_at m' id) ≡ n + count_instrs (block_at m id)
  pub elsewhere : (j : ℕ) → id ≢ j → block_at m' j ≡ block_at m j

update-Grows :
    (id : ℕ) (m : Machine) (b : MachineBlock) (x : Built)
    → block_at m id ≡ some b
    → Grows id 1 m (update_block m id (insert_built x))
update-Grows id m b x e = record {
  here =
      rw (get_elem?-update_at_self (insert_built x) id m.mbbs, e)
        (omega (arith, insert_built-count x b));
  elsewhere = λ j ne. get_elem?-update_at_ne (insert_built x) id j m.mbbs ne;
}

create-Grows :
    (mia : InstrAnalysis) (info : InstrInfo) (t : TranslatedInst) (id : ℕ) (m m' : Machine)
    → create_machine_instr mia info t (some id) m ≡ ok m'
    → Grows id 1 m m'
unfolding create_machine_instr
create-Grows mia info t id m m' e =
    let (b, eb, e1) = >>=-eq-ok (or_error (block_at m id) TranslateError.dangling_block) _ e in
    let (x, ex, e2) = >>=-eq-ok (build_instr mia info m t b.parent) _ e1 in
    let made : update_block m id (insert_built x) ≡ m' = cc e2 in
    subst (Grows id 1 m) made (update-Grows id m b x (ground (arith, eb)))

pub translate_block-Grows :
    (mia : InstrAnalysis) (info : InstrInfo) (id : ℕ) (ts : List TranslatedInst) (m m' : Machine)
    → translate_block mia info (some id) ts m ≡ ok m'
    → Grows id (length ts) m m'
unfolding translate_block
translate_block-Grows mia info id [] m m' e =
    let same : m ≡ m' = cc in
    subst (Grows id 0 m) same (record { here = omega arith; elsewhere = λ j ne. refl })
translate_block-Grows mia info id (t ∷ ts) m m' e =
    let (m1, e1, e2) = >>=-eq-ok (create_machine_instr mia info t (some id) m) _ e in
    let g = create-Grows mia info t id m m1 e1 in
    let r = translate_block-Grows mia info id ts m1 m' e2 in
    record {
      here = omega (arith, g.here, r.here);
      elsewhere = λ j ne. r.elsewhere j ne ∙ g.elsewhere j ne;
    }

-- The blocks of all functions, in order.
abbrev pub blocks_of : List TranslatedFunction → List TranslatedBlock
blocks_of [] = []
blocks_of (f ∷ fs) = f.blocks ++ blocks_of fs

-- The blocks have the identities `k`, `k + 1`, … .
abbrev pub Numbered : ℕ → List TranslatedBlock → Type 0
Numbered k [] = Unit
Numbered k (b ∷ bs) = (b.mbb ≡ some k) × Numbered (suc k) bs

-- Each block has as many machine instructions as instructions.
abbrev pub Counted : Machine → List TranslatedBlock → Type 0
Counted m [] = Unit
Counted m (b ∷ bs) =
    (count_instrs (Option.bind b.mbb (block_at m)) ≡ length b.instrs) × Counted m bs

translate_blocks_below :
    (mia : InstrAnalysis) (info : InstrInfo) (k : ℕ) (bs : List TranslatedBlock) (m m' : Machine)
    → Numbered k bs
    → translate_blocks mia info bs m ≡ ok m'
    → (j : ℕ) → j < k
    → block_at m' j ≡ block_at m j
unfolding translate_blocks
translate_blocks_below mia info k [] m m' n e j h =
    let same : m ≡ m' = cc in ap (λ x. block_at x j) (sym same)
translate_blocks_below mia info k (b ∷ bs) m m' n e j h =
    let (m1, e1, e2) = >>=-eq-ok (translate_block mia info b.mbb b.instrs m) _ e in
    let e1' : translate_block mia info (some k) b.instrs m ≡ ok m1 =
      subst (λ o. translate_block mia info o b.instrs m ≡ ok m1) n.0 e1 in
    translate_blocks_below mia info (suc k) bs m1 m' n.1 e2 j (omega arith)
    ∙ (translate_block-Grows mia info k b.instrs m m1 e1').elsewhere j (omega arith)

pub translate_blocks-Counted :
    (mia : InstrAnalysis) (info : InstrInfo) (k : ℕ) (bs : List TranslatedBlock) (m m' : Machine)
    → Numbered k bs
    → ((j : ℕ) → k ≤ j → count_instrs (block_at m j) ≡ 0)
    → translate_blocks mia info bs m ≡ ok m'
    → Counted m' bs
unfolding translate_blocks Option.bind
translate_blocks-Counted mia info k [] m m' n fresh e = tt
translate_blocks-Counted mia info k (b ∷ bs) m m' n fresh e =
    let (m1, e1, e2) = >>=-eq-ok (translate_block mia info b.mbb b.instrs m) _ e in
    let e1' : translate_block mia info (some k) b.instrs m ≡ ok m1 =
      subst (λ o. translate_block mia info o b.instrs m ≡ ok m1) n.0 e1 in
    let g = translate_block-Grows mia info k b.instrs m m1 e1' in
    let kept = translate_blocks_below mia info (suc k) bs m1 m' n.1 e2 k (omega arith) in
    (
      rw (n.0, kept) (omega (arith, g.here, fresh k (omega arith))),
      translate_blocks-Counted mia info (suc k) bs m1 m' n.1
          (λ j h. rw (g.elsewhere j (omega arith)) (fresh j (omega arith))) e2,
    )

-- Translation of the functions is translation of all their blocks.
translate_blocks-append :
    (mia : InstrAnalysis) (info : InstrInfo) (bs cs : List TranslatedBlock) (m : Machine)
    → translate_blocks mia info (bs ++ cs) m
      ≡ (translate_blocks mia info bs m >>= translate_blocks mia info cs)
unfolding translate_blocks
translate_blocks-append mia info [] cs m = refl
translate_blocks-append mia info (b ∷ bs) cs m =
    let first = translate_block mia info b.mbb b.instrs m in
    >>=_congr first _ _ (λ m'. translate_blocks-append mia info bs cs m')
    ∙ sym (>>=_assoc first (translate_blocks mia info bs) (translate_blocks mia info cs))

pub translate_instructions_blocks :
    (mia : InstrAnalysis) (info : InstrInfo) (fs : List TranslatedFunction) (m : Machine)
    → translate_instructions mia info fs m ≡ translate_blocks mia info (blocks_of fs) m
unfolding translate_instructions translate_blocks
translate_instructions_blocks mia info [] m = refl
translate_instructions_blocks mia info (f ∷ fs) m =
    >>=_congr (translate_blocks mia info f.blocks m) _ _
      (λ m'. translate_instructions_blocks mia info fs m')
    ∙ sym (translate_blocks-append mia info f.blocks (blocks_of fs) m)

pub create_blocks-length :
    (mfunc : ℕ) (bs : List TranslatedBlock) (m : Machine)
    → length (create_blocks mfunc bs m).1.mbbs ≡ length m.mbbs + length bs
unfolding create_blocks add_block
create_blocks-length mfunc [] m = omega arith
create_blocks-length mfunc (b ∷ bs) m = omega (
  arith,
  create_blocks-length mfunc bs (add_block m mfunc b.start_address),
  length-append m.mbbs (empty_block mfunc ∷ []),
)

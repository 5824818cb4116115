-- ===== src/Mctomir/Translate/Create.antt =====
-- The machine blocks that `create_machine_basic_blocks` makes are new, empty and numbered in order.
use mathlib.Core.List.{map-append}
use llvm_bleach.Base.{
  ℕ, zero, suc, ◌+◌, ◌≤◌, ◌≡◌, refl, sym, ap, ◌∙◌, subst, List, [], ◌∷◌, ◌++◌, map, none, some, ok,
  length, get_elem?, arith,
}
use native.Mathlib.Nat.{add-zero}
use llvm_bleach.Mctomir.Inst.{InstrAnalysis, TranslatedInst, TranslatedBlock, TranslatedFunction}
use llvm_bleach.Mctomir.Machine.{Machine, MachineBlock, block_at, add_block, empty_block}
use llvm_bleach.Mctomir.Translate.{
  InstrInfo, create_blocks, create_machine_basic_blocks, translate_instructions,
}
use llvm_bleach.Mctomir.Translate.Count.{
  count_instrs, Numbered, Counted, blocks_of, create_blocks-length, translate_blocks-Counted,
  translate_instructions_blocks,
}

create_blocks-Numbered :
    (mfunc : ℕ) (bs : List TranslatedBlock) (m : Machine) (k : ℕ)
    → length m.mbbs ≡ k
    → Numbered k (create_blocks mfunc bs m).0
unfolding create_blocks add_block
create_blocks-Numbered mfunc [] m k e = tt
create_blocks-Numbered mfunc (b ∷ bs) m k e = (
  ap some e,
  create_blocks-Numbered mfunc bs (add_block m mfunc b.start_address) (suc k)
      (omega (arith, create_blocks-length mfunc (b ∷ []) m)),
)

Numbered-append :
    (k : ℕ) (bs cs : List TranslatedBlock)
    → Numbered k bs
    → Numbered (k + length bs) cs
    → Numbered k (bs ++ cs)
Numbered-append k [] cs h n = subst (λ i. Numbered i cs) (add-zero k) n
Numbered-append k (b ∷ bs) cs h n =
    let e : k + suc (length bs) ≡ suc k + length bs = omega arith in
    (h.0, Numbered-append (suc k) bs cs h.1 (subst (λ i. Numbered i cs) e n))

length-create_blocks :
    (mfunc : ℕ) (bs : List TranslatedBlock) (m : Machine)
    → length (create_blocks mfunc bs m).0 ≡ length bs
unfolding create_blocks
length-create_blocks mfunc [] m = refl
length-create_blocks mfunc (b ∷ bs) m =
    ap suc (length-create_blocks mfunc bs (add_block m mfunc b.start_address))

pub create-Numbered :
    (fs : List TranslatedFunction) (m : Machine) (k : ℕ)
    → length m.mbbs ≡ k
    → Numbered k (blocks_of (create_machine_basic_blocks fs m).0)
unfolding create_machine_basic_blocks
create-Numbered [] m k e = tt
create-Numbered (f ∷ fs) m k e =
    let made = create_blocks f.mfunc f.blocks m in
    Numbered-append k made.0 (blocks_of (create_machine_basic_blocks fs made.1).0)
      (create_blocks-Numbered f.mfunc f.blocks m k e)
      (create-Numbered fs made.1 (k + length made.0) (
        create_blocks-length f.mfunc f.blocks m
        ∙ omega (arith, e, length-create_blocks f.mfunc f.blocks m)))

-- A new block is empty.
count-append_empty :
    (bs : List MachineBlock) (mfunc j : ℕ)
    → count_instrs (get_elem? (bs ++ empty_block mfunc ∷ []) j) ≡ count_instrs (get_elem? bs j)
count-append_empty [] mfunc zero = refl
count-append_empty [] mfunc (suc j) = refl
count-append_empty (b ∷ bs) mfunc zero = refl
count-append_empty (b ∷ bs) mfunc (suc j) = count-append_empty bs mfunc j

create_blocks-count :
    (mfunc : ℕ) (bs : List TranslatedBlock) (m : Machine) (j : ℕ)
    → count_instrs (block_at (create_blocks mfunc bs m).1 j) ≡ count_instrs (block_at m j)
unfolding create_blocks add_block
create_blocks-count mfunc [] m j = refl
create_blocks-count mfunc (b ∷ bs) m j =
    create_blocks-count mfunc bs (add_block m mfunc b.start_address) j
    ∙ count-append_empty m.mbbs mfunc j

create-count :
    (fs : List TranslatedFunction) (m : Machine) (j : ℕ)
    → count_instrs (block_at (create_machine_basic_blocks fs m).1 j) ≡ count_instrs (block_at m j)
unfolding create_machine_basic_blocks
create-count [] m j = refl
create-count (f ∷ fs) m j =
    create-count fs (create_blocks f.mfunc f.blocks m).1 j
    ∙ create_blocks-count f.mfunc f.blocks m j

get_elem?_beyond : (bs : List MachineBlock) (j : ℕ) → length bs ≤ j → get_elem? bs j ≡ none
get_elem?_beyond [] j h = refl
get_elem?_beyond (b ∷ bs) zero h = absurd (omega arith)
get_elem?_beyond (b ∷ bs) (suc j) h = get_elem?_beyond bs j (omega arith)

abbrev pub instrs_by_block : List TranslatedBlock → List (List TranslatedInst)
instrs_by_block = map λ b. b.instrs

create_blocks-instrs :
    (mfunc : ℕ) (bs : List TranslatedBlock) (m : Machine)
    → instrs_by_block (create_blocks mfunc bs m).0 ≡ instrs_by_block bs
unfolding create_blocks
create_blocks-instrs mfunc [] m = refl
create_blocks-instrs mfunc (b ∷ bs) m =
    ap (◌∷◌ b.instrs) (create_blocks-instrs mfunc bs (add_block m mfunc b.start_address))

create-instrs :
    (fs : List TranslatedFunction) (m : Machine)
    → instrs_by_block (blocks_of (create_machine_basic_blocks fs m).0)
      ≡ instrs_by_block (blocks_of fs)
unfolding create_machine_basic_blocks
create-instrs [] m = refl
create-instrs (f ∷ fs) m =
    let made = create_blocks f.mfunc f.blocks m in
    map-append _ made.0 (blocks_of (create_machine_basic_blocks fs made.1).0)
    ∙ rw (create_blocks-instrs f.mfunc f.blocks m, create-instrs fs made.1)
        (sym (map-append _ f.blocks (blocks_of fs)))

-- After a successful translation the machine block of each block holds exactly one machine
-- instruction for each of the block's instructions, and the blocks are those that went in.
pub create-translate-Counted :
    (mia : InstrAnalysis) (info : InstrInfo) (fs : List TranslatedFunction) (m m' : Machine)
    → let made = create_machine_basic_blocks fs m in
      translate_instructions mia info made.0 made.1 ≡ ok m'
      → Counted m' (blocks_of made.0)
        × (instrs_by_block (blocks_of made.0) ≡ instrs_by_block (blocks_of fs))
create-translate-Counted mia info fs m m' e =
    let made = create_machine_basic_blocks fs m in
    let k = length m.mbbs in
    (
      translate_blocks-Counted mia info k (blocks_of made.0) made.1 m' (create-Numbered fs m k refl)
          (λ j h. create-count fs m j ∙ ap count_instrs (get_elem?_beyond m.mbbs j h))
          (sym (translate_instructions_blocks mia info made.0 made.1) ∙ e),
      create-instrs fs m,
    )

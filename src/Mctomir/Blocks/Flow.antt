-- ===== src/Mctomir/Blocks/Flow.antt =====
-- Control enters a basic block at its start only, and leaves it at its end only.
use mathlib.Core.List.{append_assoc}
use llvm_bleach.Base.{
  ℕ, ◌≡◌, refl, sym, ap, ◌∙◌, ◌≢◌, inl, inr, true, false, ◌||◌, List, [], ◌∷◌, ◌++◌, some, ok,
  is_contained, All, In, Bool-cases, subst,
}
use llvm_bleach.Mctomir.Inst.{InstrAnalysis, TranslatedInst, TranslatedBlock, TranslatedFunction}
use llvm_bleach.Mctomir.Blocks.{identify_function, find_leaders}
use llvm_bleach.Mctomir.Blocks.Leaders.{find_leaders_next, find_leaders_target}
use llvm_bleach.Mctomir.Blocks.Partition.{
  instrs_of, StartsAt, IsBlock, IsPartition, split_function-IsPartition,
}

-- A successful run gives a partition.
pub identify_function-IsPartition :
    (mia : InstrAnalysis) (f g : TranslatedFunction)
    → f.blocks ≡ []
    → identify_function mia f ≡ ok g
    → IsPartition (find_leaders mia f.insts) f.insts g.blocks
unfolding identify_function
identify_function-IsPartition mia f g fresh e =
    let (bs, run, p) = split_function-IsPartition mia f.insts in
    let made : TranslatedFunction = record f { blocks = bs } in
    let e' : identify_function mia f ≡ ok made = rw (fresh, run) in
    let e'' : made ≡ g = cc (e, e') in
    subst (IsPartition (find_leaders mia f.insts) f.insts) (ap (λ k. k.blocks) e'') p

-- The instructions of a block are a stretch of those of the function.
stretch :
    (bs : List TranslatedBlock) (b : TranslatedBlock)
    → In b bs
    → (before : List TranslatedInst) × (after : List TranslatedInst) × (instrs_of bs
        ≡ before ++ (b.instrs ++ after))
stretch [] b h = absurd h
stretch (c ∷ bs) b (inl e) = ([], instrs_of bs, rw e refl)
stretch (c ∷ bs) b (inr h) =
    let (before, after, e) = stretch bs b h in
    (
      c.instrs ++ before,
      after,
      ap (◌++◌ c.instrs) e ∙ sym (append_assoc c.instrs before (b.instrs ++ after)),
    )

All-In {κ} : {A : Type 0} (P : A → Type κ) (xs : List A) (x : A) → All P xs → In x xs → P x
All-In P [] x h i = absurd i
All-In P (y ∷ xs) x h (inl e) = subst P (sym e) h.0
All-In P (y ∷ xs) x h (inr i) = All-In P xs x h.1 i

All_middle {κ} :
    {A : Type 0} (P : A → Type κ) (pre : List A) (n : A) (post : List A)
    → All P (pre ++ n ∷ post)
    → P n
All_middle P [] n post h = h.0
All_middle P (x ∷ pre) n post h = All_middle P pre n post h.1

-- An instruction behind another one of its block is no leader.
StartsAt-inner :
    (leaders : List ℕ) (start : ℕ) (pre : List TranslatedInst) (t n : TranslatedInst)
    (post : List TranslatedInst)
    → StartsAt leaders start (pre ++ (t ∷ n ∷ post))
    → is_contained n.address leaders ≡ false
StartsAt-inner leaders start [] t n post h = h.2.0
StartsAt-inner leaders start (p ∷ pre) t n post h =
    All_middle (λ u. is_contained u.address leaders ≡ false) (pre ++ t ∷ []) n post
      (rw (append_assoc pre (t ∷ []) (n ∷ post)) h.2)

module _ (mia : InstrAnalysis) (f g : TranslatedFunction) (fresh : f.blocks ≡ [])
    (run : identify_function mia f ≡ ok g) (b : TranslatedBlock) (h : In b g.blocks)
    (pre : List TranslatedInst) (t n : TranslatedInst) (post : List TranslatedInst)
    (cut : b.instrs ≡ pre ++ (t ∷ n ∷ post)) where
  not-leader : is_contained n.address (find_leaders mia f.insts) ≡ false
  not-leader =
      let p = identify_function-IsPartition mia f g fresh run in
      StartsAt-inner (find_leaders mia f.insts) b.start_address pre t n post (
        subst (StartsAt (find_leaders mia f.insts) b.start_address) cut
          (All-In (IsBlock (find_leaders mia f.insts)) g.blocks b p.shaped h))

  -- Only the last instruction of a block is a branch or a return.
  pub identify_function_inner : (mia.is_branch t.inst || mia.is_return t.inst) ≡ false
  identify_function_inner =
      let p = identify_function-IsPartition mia f g fresh run in
      let (before, after, e) = stretch g.blocks b h in
      let e' : f.insts ≡ (before ++ pre) ++ (t ∷ n ∷ (post ++ after)) =
        sym p.covers ∙ e ∙ ap (λ xs. before ++ (xs ++ after)) cut ∙ simp append_assoc refl in
      elim (Bool-cases (mia.is_branch t.inst || mia.is_return t.inst)) [
        | inr no_branch ↦ no_branch
        | inl branch ↦
            let l = find_leaders_next mia (before ++ pre) t n (post ++ after) branch in
            let l' : is_contained n.address (find_leaders mia f.insts) ≡ true = rw e' l in
            cc (not-leader)
      ]

  -- No branch of the function goes to an instruction that is not the first of its block.
  pub identify_function_target :
      (before after : List TranslatedInst) (s : TranslatedInst)
      → f.insts ≡ before ++ (s ∷ after)
      → mia.is_branch s.inst ≡ true
      → mia.evaluate_branch s.inst s.address 0 ≢ some n.address
  identify_function_target before after s e branch goes =
      let l = find_leaders_target mia before s after n.address branch goes in
      let l' : is_contained n.address (find_leaders mia f.insts) ≡ true = rw e l in cc (not-leader)

-- ===== src/Mctomir/Finalize/Closed.antt =====
-- The passes keep every block operand among the successors of its block.
use llvm_bleach.Base.{
  ℕ, zero, suc, inl, inr, List, [], ◌∷◌, Option, none, some, Result, ok, err, or_error, Bool-cases,
  All, All-append, Ensures, Ensures-bind, Ensures-any, is_contained, arith, Option-cases,
}
use llvm_bleach.Mctomir.Inst.{InstrAnalysis, TranslatedInst, TranslatedBlock, TranslatedFunction}
use llvm_bleach.Mctomir.Machine.{
  Machine, MachineBlock, find_address, add_block, empty_block, block_at, update_at, update_block,
  push_successor,
}
use llvm_bleach.Mctomir.Translate.{
  InstrInfo, TranslateError, build_instr, insert_built, create_machine_instr, translate_block,
  translate_blocks, translate_instructions, create_blocks, create_machine_basic_blocks,
}
use llvm_bleach.Mctomir.Translate.Targets.{
  IsClosed, BuiltIn, build_instr-BuiltIn, insert_built-IsClosed, push_successor-IsClosed,
}
use llvm_bleach.Mctomir.Link.{
  resolve_target, get_or_create_mbb_for_address, link_once, link_last, link_block, link_blocks,
  link_machine_basic_blocks, next_mbb, last?,
}
use llvm_bleach.Mctomir.Blocks.{identify_basic_blocks}
use llvm_bleach.Mctomir.Finalize.{
  FinalizeError, in_blocks, in_machine, lift_error, build_machine, finalize,
}

-- Every block of the machine.
abbrev pub AllClosed : Machine → Type 0
AllClosed m = All IsClosed m.mbbs

update_at-All :
    (f : MachineBlock → MachineBlock) (i : ℕ) (bs : List MachineBlock)
    → ((b : MachineBlock) → IsClosed b → IsClosed (f b))
    → All IsClosed bs
    → All IsClosed (update_at f i bs)
unfolding update_at
update_at-All f i [] k h = tt
update_at-All f zero (b ∷ bs) k h = (k b h.0, h.1)
update_at-All f (suc i) (b ∷ bs) k h = (h.0, update_at-All f i bs k h.1)

add_block-AllClosed : (m : Machine) (mfunc a : ℕ) → AllClosed m → AllClosed (add_block m mfunc a)
unfolding add_block
add_block-AllClosed m mfunc a h = All-append IsClosed m.mbbs (empty_block mfunc ∷ []) h (tt, tt)

create_blocks-AllClosed :
    (mfunc : ℕ) (bs : List TranslatedBlock) (m : Machine)
    → AllClosed m
    → AllClosed (create_blocks mfunc bs m).1
unfolding create_blocks
create_blocks-AllClosed mfunc [] m h = h
create_blocks-AllClosed mfunc (b ∷ bs) m h =
    create_blocks-AllClosed mfunc bs (add_block m mfunc b.start_address)
      (add_block-AllClosed m mfunc b.start_address h)

pub create-AllClosed :
    (fs : List TranslatedFunction) (m : Machine)
    → AllClosed m
    → AllClosed (create_machine_basic_blocks fs m).1
unfolding create_machine_basic_blocks
create-AllClosed [] m h = h
create-AllClosed (f ∷ fs) m h =
    create-AllClosed fs (create_blocks f.mfunc f.blocks m).1
      (create_blocks-AllClosed f.mfunc f.blocks m h)

Ensures-lift_error {ℓ κ μ} :
    {E : Type ℓ} {A : Type κ} (wrap : E → FinalizeError) (P : A → Type μ) (m : Result E A)
    → Ensures P m
    → Ensures P (lift_error wrap m)
Ensures-lift_error wrap P (ok a) h = h
Ensures-lift_error wrap P (err e) h = tt

module _ (mia : InstrAnalysis) (info : InstrInfo) where
  create_machine_instr-AllClosed :
      (t : TranslatedInst) (mbb : Option ℕ) (m : Machine)
      → AllClosed m
      → Ensures AllClosed (create_machine_instr mia info t mbb m)
  unfolding create_machine_instr
  create_machine_instr-AllClosed t none m h = tt
  create_machine_instr-AllClosed t (some id) m h =
      Ensures-bind (λ _. Unit {0}) AllClosed
        (or_error (block_at m id) TranslateError.dangling_block) _ (Ensures-any _)
        (λ b hb.
          Ensures-bind BuiltIn AllClosed (build_instr mia info m t b.parent) _
            (build_instr-BuiltIn mia info m t b.parent)
            (λ x hx.
              update_at-All (insert_built x) id m.mbbs (λ c hc. insert_built-IsClosed x c hx hc) h))

  translate_block-AllClosed :
      (mbb : Option ℕ) (ts : List TranslatedInst) (m : Machine)
      → AllClosed m
      → Ensures AllClosed (translate_block mia info mbb ts m)
  unfolding translate_block
  translate_block-AllClosed mbb [] m h = h
  translate_block-AllClosed mbb (t ∷ ts) m h =
      Ensures-bind AllClosed AllClosed (create_machine_instr mia info t mbb m) _
        (create_machine_instr-AllClosed t mbb m h) (λ m' h'. translate_block-AllClosed mbb ts m' h')

  translate_blocks-AllClosed :
      (bs : List TranslatedBlock) (m : Machine)
      → AllClosed m
      → Ensures AllClosed (translate_blocks mia info bs m)
  unfolding translate_blocks
  translate_blocks-AllClosed [] m h = h
  translate_blocks-AllClosed (b ∷ bs) m h =
      Ensures-bind AllClosed AllClosed (translate_block mia info b.mbb b.instrs m) _
        (translate_block-AllClosed b.mbb b.instrs m h)
        (λ m' h'. translate_blocks-AllClosed bs m' h')

  translate_instructions-AllClosed :
      (fs : List TranslatedFunction) (m : Machine)
      → AllClosed m
      → Ensures AllClosed (translate_instructions mia info fs m)
  unfolding translate_instructions
  translate_instructions-AllClosed [] m h = h
  translate_instructions-AllClosed (f ∷ fs) m h =
      Ensures-bind AllClosed AllClosed (translate_blocks mia info f.blocks m) _
        (translate_blocks-AllClosed f.blocks m h)
        (λ m' h'. translate_instructions-AllClosed fs m' h')

  resolve_target-AllClosed :
      (t : TranslatedInst) (mfunc : ℕ) (m : Machine)
      → AllClosed m
      → AllClosed (resolve_target mia t mfunc m)
  unfolding resolve_target get_or_create_mbb_for_address
  resolve_target-AllClosed t mfunc m h =
      elim (Option-cases (mia.evaluate_branch t.inst t.address 0)) [
        | inl e ↦ rw (e, resolve_target) h
        | inr (a, e) ↦ elim (Option-cases (find_address a m.address_to_mbb)) [
          | inl e' ↦
              rw (e, resolve_target, e', get_or_create_mbb_for_address)
                (add_block-AllClosed m mfunc a h)
          | inr (id, e') ↦ rw (e, resolve_target, e', get_or_create_mbb_for_address) h
        ]
      ]

  push-AllClosed :
      (id s : ℕ) (m : Machine) → AllClosed m → AllClosed (update_block m id (push_successor s))
  push-AllClosed id s m h =
      update_at-All (push_successor s) id m.mbbs (λ b hb. push_successor-IsClosed s b hb) h

  link_once-AllClosed :
      (id next : ℕ) (m : Machine) → AllClosed m → Ensures AllClosed (link_once id next m)
  unfolding link_once
  link_once-AllClosed id next m h =
      Ensures-bind (λ _. Unit {0}) AllClosed
        (or_error (block_at m id) TranslateError.dangling_block) _ (Ensures-any _)
        (λ b hb. elim (Bool-cases (is_contained next b.successors)) [
          | inl e ↦ rw e h
          | inr e ↦ rw e (push-AllClosed id next m h)
        ])

  link_last-AllClosed :
      (mfunc id : ℕ) (t : TranslatedInst) (next : Option ℕ) (m : Machine)
      → AllClosed m
      → Ensures AllClosed (link_last mia mfunc id t next m)
  unfolding link_last
  link_last-AllClosed mfunc id t none m h = ground (arith, resolve_target-AllClosed t mfunc m h)
  link_last-AllClosed mfunc id t (some n) m h = ground (
    arith,
    resolve_target-AllClosed t mfunc m h,
    link_once-AllClosed id n (resolve_target mia t mfunc m) (resolve_target-AllClosed t mfunc m h),
    push-AllClosed id n m h,
  )

  link_block-AllClosed :
      (mfunc : ℕ) (b : TranslatedBlock) (next : Option ℕ) (m : Machine)
      → AllClosed m
      → Ensures AllClosed (link_block mia mfunc b next m)
  unfolding link_block
  link_block-AllClosed mfunc b next m h = elim (Option-cases (last? b.instrs)) [
    | inl e ↦ rw (e, link_block) h
    | inr (t, e) ↦
        rw (e, link_block)
          (Ensures-bind (λ _. Unit {0}) AllClosed (or_error b.mbb TranslateError.dangling_block) _
            (Ensures-any _) (λ id hid. link_last-AllClosed mfunc id t next m h))
  ]

  link_blocks-AllClosed :
      (mfunc : ℕ) (bs : List TranslatedBlock) (m : Machine)
      → AllClosed m
      → Ensures AllClosed (link_blocks mia mfunc bs m)
  unfolding link_blocks
  link_blocks-AllClosed mfunc [] m h = h
  link_blocks-AllClosed mfunc (b ∷ bs) m h =
      Ensures-bind AllClosed AllClosed (link_block mia mfunc b (next_mbb bs) m) _
        (link_block-AllClosed mfunc b (next_mbb bs) m h)
        (λ m' h'. link_blocks-AllClosed mfunc bs m' h')

  link-AllClosed :
      (fs : List TranslatedFunction) (m : Machine)
      → AllClosed m
      → Ensures AllClosed (link_machine_basic_blocks mia fs m)
  unfolding link_machine_basic_blocks
  link-AllClosed [] m h = h
  link-AllClosed (f ∷ fs) m h =
      Ensures-bind AllClosed AllClosed (link_blocks mia f.mfunc f.blocks m) _
        (link_blocks-AllClosed f.mfunc f.blocks m h) (λ m' h'. link-AllClosed fs m' h')

  pub build_machine-AllClosed :
      (fs : List TranslatedFunction) (m : Machine)
      → AllClosed m
      → Ensures AllClosed (build_machine mia info fs m)
  unfolding build_machine
  build_machine-AllClosed fs m h =
      Ensures-bind AllClosed AllClosed (translate_instructions mia info fs m) _
        (translate_instructions-AllClosed fs m h) (λ m' h'. link-AllClosed fs m' h')

  -- A run of the passes leaves every block operand of a machine instruction among the successors of
  -- its block, if that held before.
  pub finalize-AllClosed :
      (fs : List TranslatedFunction) (m : Machine)
      → AllClosed m
      → Ensures (λ r. AllClosed r.1) (finalize mia info fs m)
  unfolding finalize
  finalize-AllClosed fs m h =
      Ensures-bind (λ _. Unit {0}) (λ r. AllClosed r.1)
        (lift_error in_blocks (identify_basic_blocks mia fs)) _ (Ensures-any _)
        (λ fs' hfs.
          let made = create_machine_basic_blocks fs' (record m { address_to_mbb = [] }) in
          Ensures-bind AllClosed (λ r. AllClosed r.1)
            (lift_error in_machine (build_machine mia info made.0 made.1)) _
            (Ensures-lift_error in_machine AllClosed (build_machine mia info made.0 made.1) (
              build_machine-AllClosed made.0 made.1
                (create-AllClosed fs' (record m { address_to_mbb = [] }) h)))
            (λ m' h'. h'))

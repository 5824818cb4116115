-- ===== src/Lifter/Clone/Replace.antt =====
-- The replacements, one after the other, rename each block of the function once.
use llvm_bleach.Base.{
  get_elem?-at, ℕ, suc, ◌≤◌, ◌<◌, ◌==◌, ◌≡◌, refl, ap, inl, inr, true, false, List, [], ◌∷◌, ◌++◌,
  map, some, ok, arith, length, length-append, is_contained, All, All-append, Bool-cases, ==_iff,
}
use llvm_bleach.Mctomir.Machine.{MachineOperand, MachineInstr, find_address}
use llvm_bleach.Lifter.Clone.{
  replace_id, replace_operand, replace_in_instr, replace_uses_of_block_with, replace_successors,
}

-- A renaming of blocks in an instruction.
abbrev pub rename_operand : (ℕ → ℕ) → MachineOperand → MachineOperand
rename_operand ren (MachineOperand.block id) = MachineOperand.block (ren id)
rename_operand ren (MachineOperand.reg r s) = MachineOperand.reg r s
rename_operand ren (MachineOperand.imm v) = MachineOperand.imm v
rename_operand ren (MachineOperand.global f) = MachineOperand.global f

abbrev pub rename_instr : (ℕ → ℕ) → MachineInstr → MachineInstr
rename_instr ren i = record i { operands = map (rename_operand ren) i.operands }

-- A new successor takes the place of one that is there once, if it is not there already.
abbrev pub Replaces : (ℕ → ℕ → List ℕ → List ℕ) → Type 0
Replaces replace_successor =
    (old new : ℕ) (before after : List ℕ)
    → is_contained old before ≡ false
    → is_contained new (before ++ after) ≡ false
    → replace_successor old new (before ++ old ∷ after) ≡ before ++ new ∷ after

-- No two of the numbers are equal.
abbrev pub Distinct : List ℕ → Type 0
Distinct [] = Unit
Distinct (s ∷ succs) = (is_contained s succs ≡ false) × Distinct succs

append_shift : (before after : List ℕ) (x : ℕ) → before ++ x ∷ after ≡ (before ++ x ∷ []) ++ after
append_shift [] after x = refl
append_shift (y ∷ before) after x = ap (◌∷◌ y) (append_shift before after x)

is_contained-append :
    (a : ℕ) (xs ys : List ℕ)
    → is_contained a xs ≡ false
    → is_contained a ys ≡ false
    → is_contained a (xs ++ ys) ≡ false
is_contained-append a [] ys h k = k
is_contained-append a (x ∷ xs) ys h k = ground (arith, is_contained-append a xs ys)

rename-replace :
    (old new : ℕ) (ren : ℕ → ℕ) (ops : List MachineOperand)
    → map (rename_operand ren) (map (replace_operand old new) ops)
      ≡ map (rename_operand (λ y. ren (replace_id old new y))) ops
rename-replace old new ren [] = refl
rename-replace old new ren (MachineOperand.block y ∷ ops) =
    ap (◌∷◌ (MachineOperand.block (ren (replace_id old new y)))) (rename-replace old new ren ops)
rename-replace old new ren (MachineOperand.reg r s ∷ ops) =
    ap (◌∷◌ (MachineOperand.reg r s)) (rename-replace old new ren ops)
rename-replace old new ren (MachineOperand.imm v ∷ ops) =
    ap (◌∷◌ (MachineOperand.imm v)) (rename-replace old new ren ops)
rename-replace old new ren (MachineOperand.global f ∷ ops) =
    ap (◌∷◌ (MachineOperand.global f)) (rename-replace old new ren ops)

pub rename-replace_in :
    (old new : ℕ) (ren : ℕ → ℕ) (is : List MachineInstr)
    → map (rename_instr ren) (map (replace_in_instr old new) is)
      ≡ map (rename_instr (λ y. ren (replace_id old new y))) is
rename-replace_in old new ren [] = refl
rename-replace_in old new ren (i ∷ is) =
    rw (rename-replace old new ren i.operands, rename-replace_in old new ren is) refl

map-rename_id : (ops : List MachineOperand) → map (rename_operand (λ y. y)) ops ≡ ops
map-rename_id [] = refl
map-rename_id (MachineOperand.block y ∷ ops) = ap (◌∷◌ (MachineOperand.block y)) (map-rename_id ops)
map-rename_id (MachineOperand.reg r s ∷ ops) = ap (◌∷◌ (MachineOperand.reg r s)) (map-rename_id ops)
map-rename_id (MachineOperand.imm v ∷ ops) = ap (◌∷◌ (MachineOperand.imm v)) (map-rename_id ops)
map-rename_id (MachineOperand.global f ∷ ops) =
    ap (◌∷◌ (MachineOperand.global f)) (map-rename_id ops)

map-rename_instr_id : (is : List MachineInstr) → map (rename_instr (λ y. y)) is ≡ is
map-rename_instr_id [] = refl
map-rename_instr_id (i ∷ is) = rw (map-rename_id i.operands, map-rename_instr_id is) refl

module _ (ren : ℕ → ℕ) (fresh : ℕ) where
  -- What the replacements for some successors, in order, make of a block's number.
  abbrev pub replace_each : List ℕ → ℕ → ℕ
  replace_each [] y = y
  replace_each (s ∷ succs) y = replace_each succs (replace_id s (ren s) y)

  -- The blocks have old numbers, and new ones for their clones.
  abbrev pub IsOld : ℕ → Type 0
  IsOld s = (s < fresh) × (fresh ≤ ren s)

  pub replace_each_new :
      (succs : List ℕ) (y : ℕ) → All IsOld succs → fresh ≤ y → replace_each succs y ≡ y
  replace_each_new [] y h n = refl
  replace_each_new (s ∷ succs) y h n =
      let o = h.0.0 in
      let other : y == s ≡ false = ground arith in rw other (replace_each_new succs y h.1 n)

  pub replace_each-ren :
      (succs : List ℕ) (y : ℕ)
      → All IsOld succs
      → is_contained y succs ≡ true
      → replace_each succs y ≡ ren y
  replace_each-ren [] y h c = cc
  replace_each-ren (s ∷ succs) y h c = elim (Bool-cases (y == s)) [
    | inl e ↦
        let same : y ≡ s = (==_iff y s).0 e in
        rw (e, same) (replace_each_new succs (ren s) h.1 h.0.1)
    | inr e ↦ rw e (replace_each-ren succs y h.1 (ground arith))
  ]

  -- A new number is not an old one.
  new_not_in : (succs : List ℕ) (y : ℕ) → All IsOld succs → fresh ≤ y → is_contained y succs ≡ false
  new_not_in [] y h n = refl
  new_not_in (s ∷ succs) y h n = let o = h.0.0 in ground (arith, new_not_in succs y h.1 n)

  old_not_in :
      (news : List ℕ) (y : ℕ) → All (λ n. fresh ≤ n) news → y < fresh → is_contained y news ≡ false
  old_not_in [] y h n = refl
  old_not_in (s ∷ news) y h n = let o = h.0 in ground (arith, old_not_in news y h.1 n)

  apart-step :
      (s : ℕ) (news succs : List ℕ)
      → is_contained (ren s) (map ren succs) ≡ false
      → All (λ t. is_contained (ren t) news ≡ false) succs
      → All (λ t. is_contained (ren t) (news ++ ren s ∷ []) ≡ false) succs
  apart-step s news [] c h = tt
  apart-step s news (t ∷ succs) c h = (
    is_contained-append (ren t) news (ren s ∷ []) h.0 (ground arith),
    apart-step s news succs (ground arith) h.1,
  )

  -- The successors are replaced one by one, and the instructions with them.
  pub replace_successors_run :
      (replace_successor : ℕ → ℕ → List ℕ → List ℕ) (block_map : List (ℕ × ℕ)) (i parent : ℕ)
      (is : List MachineInstr) (news succs : List ℕ)
      → Replaces replace_successor
      → i ≡ length news
      → All (λ n. fresh ≤ n) news
      → All IsOld succs
      → All (λ s. find_address s block_map ≡ some (ren s)) succs
      → Distinct (map ren succs)
      → All (λ s. is_contained (ren s) news ≡ false) succs
      → replace_successors replace_successor block_map
          (length succs)
          i
          (record { parent = parent; instrs = is; successors = news ++ succs })
        ≡ ok (record {
          parent = parent;
          instrs = map (rename_instr (replace_each succs)) is;
          successors = news ++ map ren succs;
        })
  unfolding replace_successors replace_uses_of_block_with
  replace_successors_run replace block_map i parent is news [] law at_end hn ho hf d apart =
      rw (map-rename_instr_id is) refl
  replace_successors_run replace block_map i parent is news (s ∷ succs) law at_end hn ho hf d
        apart =
      let rest =
        replace_successors_run replace block_map (suc (length news)) parent
          (map (replace_in_instr s (ren s)) is) (news ++ ren s ∷ []) succs law
          (omega (arith, length-append news (ren s ∷ [])))
          (All-append (λ n. fresh ≤ n) news (ren s ∷ []) hn (ho.0.1, tt)) ho.1 hf.1 d.1
          (apart-step s news succs d.0 apart.1) in
      rw
        (
          at_end,
          get_elem?-at news succs s,
          hf.0,
          law s (ren s) news succs (old_not_in news s hn ho.0.0) (
              is_contained-append (ren s) news succs apart.0
                (new_not_in succs (ren s) ho.1 ho.0.1)),
          append_shift news succs (ren s),
          append_shift news (map ren succs) (ren s),
          ← rename-replace_in s (ren s) (replace_each succs) is,
        )
        rest

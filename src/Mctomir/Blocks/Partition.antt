-- ===== src/Mctomir/Blocks/Partition.antt =====
-- `identify_basic_blocks` cuts the instructions of a function into its basic blocks.
use mathlib.Core.List.{append_assoc, append-nil}
use llvm_bleach.Base.{
  ℕ, ◌≡◌, refl, sym, ap, ◌∙◌, inl, inr, true, false, List, [], ◌∷◌, ◌++◌, some, ok, is_contained,
  All, All-append, Bool-cases, sub64,
}
use llvm_bleach.Mctomir.Inst.{InstrAnalysis, TranslatedInst, TranslatedBlock}
use llvm_bleach.Mctomir.Blocks.{new_block, split_insts, split_function, find_leaders, last_end}
use llvm_bleach.Mctomir.Blocks.Leaders.{find_leaders_first}

abbrev pub instrs_of : List TranslatedBlock → List TranslatedInst
instrs_of [] = []
instrs_of (b ∷ bs) = b.instrs ++ instrs_of bs

instrs_of-append :
    (bs cs : List TranslatedBlock) → instrs_of (bs ++ cs) ≡ instrs_of bs ++ instrs_of cs
instrs_of-append [] cs = refl
instrs_of-append (b ∷ bs) cs = rw (instrs_of-append bs cs, append_assoc)

-- A block starts at its first instruction, a leader, and no other instruction of it is one.
abbrev pub StartsAt : List ℕ → ℕ → List TranslatedInst → Type 0
StartsAt leaders start [] = ⊥
StartsAt leaders start (t ∷ rest) =
    (t.address ≡ start)
    × (is_contained start leaders ≡ true)
    × All (λ u. is_contained u.address leaders ≡ false) rest

abbrev pub IsBlock : List ℕ → TranslatedBlock → Type 0
IsBlock leaders b = StartsAt leaders b.start_address b.instrs

-- Each block ends one byte before the next one starts.
abbrev pub Chained : List TranslatedBlock → Type 0
Chained [] = Unit
Chained (b ∷ []) = Unit
Chained (b ∷ c ∷ bs) = (b.end_address ≡ sub64 c.start_address 1) × Chained (c ∷ bs)

Chained-close :
    (bs : List TranslatedBlock) (b c : TranslatedBlock)
    → Chained (bs ++ b ∷ [])
    → Chained ((bs ++ record b { end_address = sub64 c.start_address 1 } ∷ []) ++ c ∷ [])
Chained-close [] b c h = (refl, tt)
Chained-close (a ∷ []) b c h = (h.0, (refl, tt))
Chained-close (a ∷ d ∷ bs) b c h = (h.0, Chained-close (d ∷ bs) b c h.1)

-- What a block is changed into keeps the chain, if it starts at the same address.
Chained-last :
    (bs : List TranslatedBlock) (b c : TranslatedBlock)
    → c.start_address ≡ b.start_address
    → Chained (bs ++ b ∷ [])
    → Chained (bs ++ c ∷ [])
Chained-last [] b c e h = tt
Chained-last (a ∷ []) b c e h = (rw e h.0, tt)
Chained-last (a ∷ d ∷ bs) b c e h = (h.0, Chained-last (d ∷ bs) b c e h.1)

StartsAt-push :
    (leaders : List ℕ) (start : ℕ) (ts : List TranslatedInst) (t : TranslatedInst)
    → is_contained t.address leaders ≡ false
    → StartsAt leaders start ts
    → StartsAt leaders start (ts ++ t ∷ [])
StartsAt-push leaders start [] t e h = absurd h
StartsAt-push leaders start (u ∷ ts) t e h = (h.0, h.1, All-append _ ts (t ∷ []) h.2 (e, tt))

-- The loop from a state with a current block `b`.
record Runs (leaders : List ℕ) (closed : List TranslatedBlock) (b : TranslatedBlock)
    (insts : List TranslatedInst) : Type 0 where
  closed' : List TranslatedBlock
  b' : TranslatedBlock
  run :
      split_insts leaders (record { closed = closed; current = some b }) insts
      ≡ ok (record { closed = closed'; current = some b' })
  covers : instrs_of closed' ++ b'.instrs ≡ (instrs_of closed ++ b.instrs) ++ insts
  shaped : All (IsBlock leaders) closed'
  shape : IsBlock leaders b'
  chained : Chained (closed' ++ b' ∷ [])

split_insts-Runs :
    (leaders : List ℕ) (insts : List TranslatedInst) (closed : List TranslatedBlock)
    (b : TranslatedBlock)
    → All (IsBlock leaders) closed
    → IsBlock leaders b
    → Chained (closed ++ b ∷ [])
    → Runs leaders closed b insts
unfolding split_insts
split_insts-Runs leaders [] closed b hs h k = record {
  closed' = closed;
  b' = b;
  run = refl;
  covers = sym (append-nil _);
  shaped = hs;
  shape = h;
  chained = k;
}
split_insts-Runs leaders (t ∷ rest) closed b hs h k =
    elim (Bool-cases (is_contained t.address leaders)) [
      | inl e ↦
          let old : TranslatedBlock = record b { end_address = sub64 t.address 1 } in
          let new : TranslatedBlock = record (new_block t.address) { instrs = t ∷ [] } in
          let r : Runs leaders (closed ++ old ∷ []) new rest =
            split_insts-Runs leaders rest (closed ++ old ∷ []) new
              (All-append _ closed (old ∷ []) hs (h, tt)) (refl, e, tt)
              (Chained-close closed b new k) in
          record {
            closed' = r.closed';
            b' = r.b';
            run = rw e r.run;
            covers =
                r.covers
                ∙ simp (instrs_of-append closed (old ∷ []), append_assoc, append-nil b.instrs) refl;
            shaped = r.shaped;
            shape = r.shape;
            chained = r.chained;
          }
      | inr e ↦
          let new : TranslatedBlock = record b { instrs = b.instrs ++ t ∷ [] } in
          let r : Runs leaders closed new rest =
            split_insts-Runs leaders rest closed new hs
              (StartsAt-push leaders b.start_address b.instrs t e h)
              (Chained-last closed b new refl k) in
          record {
            closed' = r.closed';
            b' = r.b';
            run = rw e r.run;
            covers = r.covers ∙ simp append_assoc refl;
            shaped = r.shaped;
            shape = r.shape;
            chained = r.chained;
          }
    ]

-- The last block ends behind the last instruction, as the code computes that end.
abbrev pub EndsAt : ℕ → List TranslatedBlock → Type 0
EndsAt end [] = Unit
EndsAt end (b ∷ []) = b.end_address ≡ end
EndsAt end (b ∷ c ∷ bs) = EndsAt end (c ∷ bs)

EndsAt-last :
    (bs : List TranslatedBlock) (b : TranslatedBlock) → EndsAt b.end_address (bs ++ b ∷ [])
EndsAt-last [] b = refl
EndsAt-last (a ∷ []) b = refl
EndsAt-last (a ∷ d ∷ bs) b = EndsAt-last (d ∷ bs) b

abbrev pub end_of : List TranslatedInst → ℕ
end_of [] = 0
end_of (t ∷ rest) = last_end t rest

-- `bs` holds the instructions in order, cut exactly at the leaders.
pub record IsPartition (leaders : List ℕ) (insts : List TranslatedInst) (bs : List TranslatedBlock)
    : Type 0 where
  pub covers : instrs_of bs ≡ insts
  pub shaped : All (IsBlock leaders) bs
  pub chained : Chained bs
  pub ends : EndsAt (end_of insts) bs

pub split_function-IsPartition :
    (mia : InstrAnalysis) (insts : List TranslatedInst)
    → (bs : List TranslatedBlock) × (split_function mia [] insts ≡ ok bs)
      × IsPartition (find_leaders mia insts) insts bs
unfolding split_function split_insts
split_function-IsPartition mia [] =
    ([], refl, record { covers = refl; shaped = tt; chained = tt; ends = tt })
split_function-IsPartition mia (t ∷ rest) =
    let leaders = find_leaders mia (t ∷ rest) in
    let first = find_leaders_first mia t rest in
    let b : TranslatedBlock = record (new_block t.address) { instrs = t ∷ [] } in
    let r : Runs leaders [] b rest = split_insts-Runs leaders rest [] b tt (refl, first, tt) tt in
    let last : TranslatedBlock = record (r.b') { end_address = last_end t rest } in
    (
      r.closed' ++ last ∷ [],
      rw (first, r.run),
      record {
        covers =
            instrs_of-append r.closed' (last ∷ [])
            ∙ ap (◌++◌ (instrs_of r.closed')) (append-nil (r.b').instrs)
            ∙ r.covers;
        shaped = All-append _ r.closed' (last ∷ []) r.shaped (r.shape, tt);
        chained = Chained-last r.closed' r.b' last refl r.chained;
        ends = EndsAt-last r.closed' last;
      },
    )

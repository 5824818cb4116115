-- ===== src/Mctomir/Machine/Laws.antt =====
-- Laws of the blocks of a machine.
use mathlib.Core.Option
use llvm_bleach.Base.{
  ℕ, zero, suc, ◌≡◌, ◌≢◌, refl, ap, List, [], ◌∷◌, ◌++◌, some, length, get_elem?,
}
use llvm_bleach.Mctomir.Machine.{MachineBlock, update_at}

pub length-update_at :
    (f : MachineBlock → MachineBlock) (i : ℕ) (bs : List MachineBlock)
    → length (update_at f i bs) ≡ length bs
unfolding update_at
length-update_at f i [] = refl
length-update_at f zero (b ∷ bs) = refl
length-update_at f (suc i) (b ∷ bs) = ap suc (length-update_at f i bs)

-- A change is seen at its block, and nowhere else.
pub get_elem?-update_at_self :
    (f : MachineBlock → MachineBlock) (i : ℕ) (bs : List MachineBlock)
    → get_elem? (update_at f i bs) i ≡ Option.map f (get_elem? bs i)
unfolding update_at
get_elem?-update_at_self f i [] = refl
get_elem?-update_at_self f zero (b ∷ bs) = refl
get_elem?-update_at_self f (suc i) (b ∷ bs) = get_elem?-update_at_self f i bs

pub get_elem?-update_at_ne :
    (f : MachineBlock → MachineBlock) (i j : ℕ) (bs : List MachineBlock)
    → i ≢ j
    → get_elem? (update_at f i bs) j ≡ get_elem? bs j
unfolding update_at
get_elem?-update_at_ne f i j [] h = refl
get_elem?-update_at_ne f zero zero (b ∷ bs) h = absurd (h refl)
get_elem?-update_at_ne f zero (suc j) (b ∷ bs) h = refl
get_elem?-update_at_ne f (suc i) zero (b ∷ bs) h = refl
get_elem?-update_at_ne f (suc i) (suc j) (b ∷ bs) h =
    get_elem?-update_at_ne f i j bs (λ e. h (ap suc e))

pub get_elem?-append_left :
    (bs cs : List MachineBlock) (i : ℕ) (b : MachineBlock)
    → get_elem? bs i ≡ some b
    → get_elem? (bs ++ cs) i ≡ some b
get_elem?-append_left [] cs i b h = cc
get_elem?-append_left (x ∷ bs) cs zero b h = h
get_elem?-append_left (x ∷ bs) cs (suc i) b h = get_elem?-append_left bs cs i b h

pub get_elem?-append_length :
    (bs cs : List MachineBlock) (b : MachineBlock) → get_elem? (bs ++ b ∷ cs) (length bs) ≡ some b
get_elem?-append_length [] cs b = refl
get_elem?-append_length (x ∷ bs) cs b = get_elem?-append_length bs cs b

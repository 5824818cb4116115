-- ===== src/Examples/Modules.antt =====
-- A module with its state type, its sections, its clones, and its table of functions.
use mathlib.Core.Option
use text.Mathlib.Text.{◌==◌ as str_eq}
use llvm_bleach.Base.{
  ℕ, zero, suc, ◌+◌, ◌<◌, ◌^◌, ◌*◌, ◌≡◌, refl, ap, Bool, not, ◌&&◌, Bool-cases, Option-cases, true,
  false, ◌==◌, String, List, [], ◌∷◌, Option, none, some, ok, arith, map, length, get_elem?, All,
  inl, inr, if◌then◌else◌,
}
use llvm_bleach.Mctomir.Machine.{MachineOperand, MachineInstr, MachineBlock}
use llvm_bleach.Mctomir.Sections.{SectionInfo, readable}
use llvm_bleach.Lifter.Control.{Queries, is_call}
use llvm_bleach.Lifter.Module.{SourceFunction, clone_module}
use llvm_bleach.Lifter.Module.Linked.{HasKnownCalls, linked, clones_from, clone_module-linked}
use llvm_bleach.Examples.Lifting.{queries}
use llvm_bleach.Lifter.Clone.Replace.{Replaces}
use llvm_bleach.Lifter.Clone.Numbers.{renumber}
use llvm_bleach.Formats.Symbols.{FileInfo}
use llvm_bleach.Runtime.Symtab.{symtab_lookup, add_all}
use llvm_bleach.Lifter.Function.{IrFunction, fill_symtab_at}
use llvm_bleach.Lifter.Function.Symtab.{StartsAt, symtab_lookup-found}
use llvm_bleach.Lifter.Globals.{
  GlobalVariable, has_local_linkage, create_all_globals, create_section_globals, create_global,
  create_sections_array_global, section_entries, section_entry, section_name, create_sections,
  create_addr_lookup_func, bleach_try_get_real_addr, Constant, byte_array, i64, first_of, entries,
  external_linkage, private_linkage, internal_linkage,
}
use llvm_bleach.Lifter.Globals.Kept.{NotLocal}
use llvm_bleach.Lifter.Globals.Memory.{Loaded, bleach_try_get_real_addr-byte_at}

-- The first occurrence of the old number becomes the new one.
abbrev pub put : ℕ → ℕ → List ℕ → List ℕ
put old new [] = []
put old new (s ∷ succs) = let rest = put old new succs in if old == s then new ∷ succs else s ∷ rest

pub put-Replaces : Replaces put
put-Replaces old new [] after h k = ground arith
put-Replaces old new (s ∷ before) after h k =
    let differs : old == s ≡ false = ground arith in
    rw differs (ap (◌∷◌ s) (put-Replaces old new before after (ground arith) (ground arith)))

abbrev pub jump_to : ℕ → MachineInstr
jump_to b = record { opcode = 1; operands = MachineOperand.block b ∷ [] }

-- Block 0 goes to itself and to block 1.
abbrev leave : MachineBlock
leave = record { parent = 0; instrs = []; successors = [] }

-- The first variable of the name that has no local linkage.
abbrev pub find_global : String → List GlobalVariable → Option ℕ
find_global name [] = none
find_global name (g ∷ m) =
    if str_eq g.name name && not (has_local_linkage g)
    then some 0
    else elim (find_global name m) [ none ↦ none | some i ↦ some (suc i) ]

pub find_global-NotLocal : NotLocal find_global
find_global-NotLocal name [] i e = cc
find_global-NotLocal name (g ∷ m) i e =
    elim (Bool-cases (str_eq g.name name && not (has_local_linkage g))) [
      | inl c ↦
          let found : some 0 ≡ some i = rw c at e in
          let first : i ≡ 0 = cc (found) in
          (g, rw first refl, and_not (str_eq g.name name) (has_local_linkage g) c)
      | inr c ↦ elim (Option-cases (find_global name m)) [
        | inl n ↦ let nothing : none ≡ some i = rw (c, n) at e in cc
        | inr (j, n) ↦
            let found : some (suc j) ≡ some i = rw (c, n) at e in
            let next : i ≡ suc j = cc (found) in
            let (h, at_h, out) = find_global-NotLocal name m j n in (h, rw next at_h, out)
      ]
    ]
  where
    and_not : (a b : Bool) → a && not b ≡ true → b ≡ false
    and_not true true k = cc
    and_not true false k = refl
    and_not false b k = cc

abbrev pub data_section : SectionInfo
data_section = record { bytes = 7 ∷ 8 ∷ []; name = ".data"; start = 16; acc = readable }

-- A program that declares the size of the section.
abbrev declared : List GlobalVariable
declared =
    record {
      name = "data_size";
      is_constant = false;
      linkage = external_linkage;
      initializer = none;
    }
    ∷ []

abbrev private_const : String → Constant → GlobalVariable
private_const n val = record {
  name = n;
  is_constant = true;
  linkage = private_linkage;
  initializer = some val;
}

abbrev section_module : List GlobalVariable
section_module =
    private_const "data_size" (i64 2)
    ∷ private_const "bleach_data" (byte_array (7 ∷ 8 ∷ []))
    ∷ private_const "data_start" (i64 16)
    ∷ private_const "data_ptr" (first_of 1)
    ∷ record {
      name = "bleach_section_globals";
      is_constant = true;
      linkage = internal_linkage;
      initializer = some (entries (record { data_ptr = 1; start = 16; size = 2 } ∷ []));
    }
    ∷ []

sections_run : create_sections find_global declared (data_section ∷ []) ≡ ok (section_module, 4)
unfolding create_sections create_all_globals create_section_globals create_global
    create_sections_array_global section_entries section_entry section_name
sections_run = refl

-- Global `i` lies at the address 1000 * i.
abbrev place : ℕ → ℕ
place i = 1000 * i

abbrev memory : ℕ → ℕ
memory a = if a == 1000 then 7 else if a == 1001 then 8 else 0

abbrev bytes_in : Option Constant → Option (List ℕ)
bytes_in (some (byte_array bs)) = some bs
bytes_in _ = none

abbrev bytes_at : ℕ → Option (List ℕ)
bytes_at i = elim (get_elem? section_module i) [ none ↦ none | some g ↦ bytes_in g.initializer ]

section_module-Loaded : Loaded section_module place memory
section_module-Loaded i g bytes e v = at i bytes (rw (e, v) refl)
  where
    cell : (k b : ℕ) → get_elem? (7 ∷ 8 ∷ []) k ≡ some b → memory (1000 + k) ≡ b
    cell zero b h = cc
    cell (suc zero) b h = cc
    cell (suc (suc k)) b h = cc

    at :
        (j : ℕ) (bs : List ℕ)
        → bytes_at j ≡ some bs
        → (place j + length bs < 2 ^ 64)
          × ((k b : ℕ) → get_elem? bs k ≡ some b → memory (place j + k) ≡ b)
    at zero bs h = cc
    at (suc zero) bs h = let same : 7 ∷ 8 ∷ [] ≡ bs = cc (h) in rw (← same) (omega arith, cell)
    at (suc (suc zero)) bs h = cc
    at (suc (suc (suc zero))) bs h = cc
    at (suc (suc (suc (suc zero)))) bs h = cc
    at (suc (suc (suc (suc (suc j))))) bs h = cc

bleach_try_get_real_addr-byte_at_example :
    (found : Option ℕ) × (bleach_try_get_real_addr place section_module
        (create_addr_lookup_func 4 1)
        17
      ≡ ok found)
    × (Option.map memory found ≡ some 8)
bleach_try_get_real_addr-byte_at_example =
    bleach_try_get_real_addr-byte_at find_global declared section_module (data_section ∷ []) 4 place
      memory 17 find_global-NotLocal (omega arith, tt) sections_run section_module-Loaded
      (omega arith)

abbrev pub file_symbols : FileInfo
file_symbols =
    record { name = "main"; start = 16; end = 24 }
    ∷ record { name = "helper"; start = 24; end = 40 }
    ∷ []

abbrev lifted_main : IrFunction
lifted_main = record { name = "main"; address = 5000; is_empty = false }

abbrev lifted_helper : IrFunction
lifted_helper = record { name = "helper"; address = 6000; is_empty = false }

abbrev outside : IrFunction
outside = record { name = "printf"; address = 0; is_empty = true }

abbrev program : List IrFunction
program = lifted_main ∷ outside ∷ lifted_helper ∷ []

at_main : StartsAt "main" 16 file_symbols
at_main = StartsAt.here refl refl

at_helper : StartsAt "helper" 24 file_symbols
at_helper = StartsAt.later refl (StartsAt.here refl refl)

symbols_known :
    All (λ f. f.is_empty ≡ false → (addr : ℕ) × StartsAt f.name addr file_symbols) program
symbols_known = ((λ e. (16, at_main)), ((λ e. cc), ((λ e. (24, at_helper)), tt)))

main_only :
    All (λ f. f.is_empty ≡ false → StartsAt f.name 16 file_symbols → f ≡ lifted_main) program
main_only = ((λ e s. refl), ((λ e. cc), ((λ e s. elsewhere s), tt)))
  where
    elsewhere : StartsAt "helper" 16 file_symbols → lifted_helper ≡ lifted_main
    elsewhere (StartsAt.here e starts) = cc
    elsewhere (StartsAt.later e (StartsAt.here e' starts)) = cc
    elsewhere (StartsAt.later e (StartsAt.later e' h)) = elim h [ ]

symtab_lookup-found_example :
    (calls : List (ℕ × ℕ)) × (fill_symtab_at program file_symbols [] ≡ ok calls)
    × (symtab_lookup 16 (add_all calls []) ≡ ok 5000)
symtab_lookup-found_example =
    symtab_lookup-found lifted_main 16 program file_symbols symbols_known (inl refl) refl at_main
      main_only

-- A call has the opcode 4. The first function calls the second.
abbrev call_queries : Queries
call_queries = record queries { flag_call = λ o. o == 4 }

abbrev pub call_of : ℕ → MachineInstr
call_of f = record { opcode = 4; operands = MachineOperand.global f ∷ [] }

abbrev caller : SourceFunction
caller = record {
  id = 0;
  name = "main";
  blocks =
      (0, record { parent = 0; instrs = call_of 1 ∷ jump_to 1 ∷ []; successors = 1 ∷ [] })
      ∷ (1, leave)
      ∷ [];
}

abbrev callee : SourceFunction
callee = record { id = 1; name = "helper"; blocks = (0, leave) ∷ [] }

calls_known : All (HasKnownCalls call_queries (0 ∷ 1 ∷ [])) (caller ∷ callee ∷ [])
unfolding is_call
calls_known = ((((λ c. refl), ((λ c. cc), tt)), (tt, tt)), ((tt, tt), tt))

clone_module-linked_example :
    clone_module call_queries (λ o. o == 1) put 8 2 (caller ∷ callee ∷ [])
    ≡ ok (
        map
          (linked call_queries (renumber (0 ∷ 1 ∷ []) 2))
          (clones_from 8 2 (caller ∷ callee ∷ [])))
clone_module-linked_example =
    clone_module-linked call_queries (λ o. o == 1) put 8 2 (caller ∷ callee ∷ []) put-Replaces
      (
        (
          (refl, (refl, tt)),
          (omega arith, (omega arith, tt)),
          (((refl, tt), (refl, tt), ((tt, tt), ((refl, tt), tt))), ((tt, tt, tt), tt)),
        ),
        (((refl, tt), (omega arith, tt), ((tt, tt, tt), tt)), tt),
      )
      calls_known

-- The call in the clone of the first function goes to the clone of the second.
linked_run :
    map (linked call_queries (renumber (0 ∷ 1 ∷ []) 2)) (clones_from 8 2 (caller ∷ callee ∷ []))
    ≡ record {
      old = 0;
      old_name = "main.old";
      id = 2;
      name = "main";
      blocks =
          record { parent = 2; instrs = call_of 3 ∷ jump_to 9 ∷ []; successors = 9 ∷ [] }
          ∷ record { parent = 2; instrs = []; successors = [] }
          ∷ [];
    }
      ∷ record {
        old = 1;
        old_name = "helper.old";
        id = 3;
        name = "helper";
        blocks = record { parent = 3; instrs = []; successors = [] } ∷ [];
      }
      ∷ []
unfolding is_call
linked_run = refl

-- ===== src/Lifter/Stats.antt =====
-- `register_class` and `register_stats` (include/bleach/lifter/lifter.hpp), and what collects them:
-- `collect_register_stats_for`, `assign_register_classes`, `collect_register_stats`
-- (lib/lifter/lifter.cpp). `Target` stands for the target's register names and classes and for
-- `llvm::Regex`. The pairs of subregister classes come in some order of `std::unordered_map`.
pub mod Laws
use text.Mathlib.Text.{◌==◌ as str_eq}
use llvm_bleach.Base.{
  ℕ, Bool, true, false, ◌||◌, String, List, [], ◌∷◌, ◌++◌, map, none, some, Result, ok, err, ◌>>=◌,
  or_error, find_if, filter_if, any_of, all_of, is_contained, if◌then◌else◌,
}
use llvm_bleach.Lifter.OrderedMap.{try_emplace}

-- The keys of `entries` are registers, each with its subregisters; `bits` is `reg_bitsize`.
pub record RegisterClass : Type 0 where
  pub name : String
  pub regex : String
  pub bits : ℕ
  pub entries : List (ℕ × List ℕ)

abbrev pub keys : List (ℕ × List ℕ) → List ℕ
keys [] = []
keys (e ∷ es) = e.0 ∷ keys es

-- `rclass.contains(reg)`.
abbrev pub has_key : ℕ → RegisterClass → Bool
has_key reg c = is_contained reg (keys c.entries)

unfoldable pub add_reg : ℕ → RegisterClass → RegisterClass
add_reg reg c = record c { entries = try_emplace reg [] c.entries }

-- A class holds a register as a key or as a subregister of one.
abbrev pub has_register : ℕ → RegisterClass → Bool
has_register reg c = has_key reg c || any_of (λ e. is_contained reg e.1) c.entries

pub data StatsError : Type 0 where
  unknown_register no_matching_class no_llvm_class no_register_classes empty_stats : StatsError
  small_registers : StatsError

unfoldable pub get_register_class_for : List RegisterClass → ℕ → Result StatsError RegisterClass
get_register_class_for stats reg = or_error (find_if (has_register reg) stats) unknown_register

pub record LlvmClass : Type 0 where
  pub regs : List ℕ
  pub bits : ℕ

-- `regex.match(name)`, and `regex.sub("", name).empty()`.
pub record Target : Type 0 where
  pub asm_name : ℕ → String
  pub matches : String → String → Bool
  pub matches_whole : String → String → Bool
  pub classes : List LlvmClass

module _ (target : Target) where
  -- `matching->add_reg(…)` at the first class whose expression matches the name.
  unfoldable pub add_to_matching : ℕ → List RegisterClass → Result StatsError (List RegisterClass)
  add_to_matching reg [] = err no_matching_class
  add_to_matching reg (c ∷ cs) =
      let rest = (do cs' ← add_to_matching reg cs; ok (c ∷ cs')) in
      if target.matches c.regex (target.asm_name reg) then ok (add_reg reg c ∷ cs) else rest

  -- The register operands of a machine function, in order.
  unfoldable pub collect_register_stats_for :
      List ℕ → List RegisterClass → Result StatsError (List RegisterClass)
  collect_register_stats_for [] stats = ok stats
  collect_register_stats_for (reg ∷ regs) stats =
      add_to_matching reg stats >>= collect_register_stats_for regs

  -- The registers of the LLVM class whose whole name matches.
  abbrev add_whole : List ℕ → RegisterClass → RegisterClass
  add_whole [] c = c
  add_whole (r ∷ rs) c =
      add_whole rs (if target.matches_whole c.regex (target.asm_name r) then add_reg r c else c)

  unfoldable pub assign_class : RegisterClass → Result StatsError RegisterClass
  unfolding add_reg
  assign_class c = do
    found ←
        or_error
          (find_if (λ l. all_of (λ r. is_contained r l.regs) (keys c.entries)) target.classes)
          no_llvm_class
    ok (add_whole found.regs (record c { bits = found.bits }))

  unfoldable pub assign_register_classes :
      List RegisterClass → Result StatsError (List RegisterClass)
  assign_register_classes [] = ok []
  assign_register_classes (c ∷ cs) = do
    c' ← assign_class c
    cs' ← assign_register_classes cs
    ok (c' ∷ cs')

-- `views::zip`: the i-th register of the class gets the i-th subregister.
unfoldable pub alias_entries : List (ℕ × List ℕ) → List (ℕ × List ℕ) → List (ℕ × List ℕ)
alias_entries [] subs = []
alias_entries (e ∷ es) [] = e ∷ es
alias_entries (e ∷ es) (s ∷ subs) = (e.0, e.1 ++ s.0 ∷ []) ∷ alias_entries es subs

abbrev pub is_named : String → RegisterClass → Bool
is_named name c = str_eq c.name name

-- A change of the first class with a name, and the removal of one.
unfoldable pub update_named :
    String → (RegisterClass → RegisterClass) → List RegisterClass → List RegisterClass
update_named name f [] = []
update_named name f (c ∷ cs) = if is_named name c then f c ∷ cs else c ∷ update_named name f cs

unfoldable pub erase_named : String → List RegisterClass → List RegisterClass
erase_named name [] = []
erase_named name (c ∷ cs) = if is_named name c then cs else c ∷ erase_named name cs

abbrev pub alias_with : RegisterClass → RegisterClass → RegisterClass
alias_with sub c = record c { entries = alias_entries c.entries sub.entries }

-- One pair of a subregister class and the class that it is part of.
unfoldable pub merge_subregs : String × String → List RegisterClass → List RegisterClass
merge_subregs (subclass, aliasto) stats = elim (find_if (is_named subclass) stats) [
  | none ↦ stats
  | some sub ↦ elim (find_if (is_named aliasto) stats) [
    | none ↦ stats
    | some c ↦ erase_named subclass (update_named aliasto (alias_with sub) stats)
  ]
]

unfoldable pub merge_all : List (String × String) → List RegisterClass → List RegisterClass
merge_all [] stats = stats
merge_all (p ∷ ps) stats = merge_all ps (merge_subregs p stats)

abbrev pub is_nonempty : RegisterClass → Bool
is_nonempty c = elim c.entries [ [] ↦ false | e ∷ es ↦ true ]

-- `functions` holds the register operands of each function; `configured` the classes of the file.
unfoldable pub collect_functions_stats :
    Target → List (List ℕ) → List RegisterClass → Result StatsError (List RegisterClass)
collect_functions_stats target [] stats = ok stats
collect_functions_stats target (regs ∷ functions) stats =
    collect_register_stats_for target regs stats >>= collect_functions_stats target functions

abbrev pub new_class : String × String → RegisterClass
new_class (name, regex) = record { name = name; regex = regex; bits = 0; entries = [] }

unfoldable pub collect_register_stats :
    Target
    → List (String × String)
    → List (String × String)
    → List (List ℕ)
    → Result StatsError (List RegisterClass)
collect_register_stats target [] subregs functions = err no_register_classes
collect_register_stats target (c ∷ configured) subregs functions = do
  stats ← collect_functions_stats target functions (map new_class (c ∷ configured))
  assigned ← assign_register_classes target stats
  ok (merge_all subregs (filter_if is_nonempty assigned))

-- ===== src/Examples/Bleach.antt =====
-- A module of two functions, the first of which calls the second, and its lifting.
use llvm_bleach.Base.{
  ◌*◌, ◌==◌, ◌≡◌, refl, true, false, String, List, [], ◌∷◌, map, some, Result, ok, err, All,
  Ensures, arith, if◌then◌else◌,
}
use llvm_bleach.Lifter.Stats.{Target}
use llvm_bleach.Lifter.Control.{Queries, is_call, is_return, is_branch, is_indirect_branch}
use llvm_bleach.Lifter.Module.{SourceFunction}
use llvm_bleach.Lifter.Module.Linked.{IsClonable, HasKnownCalls}
use llvm_bleach.Lifter.Bleach.{Settings, BleachError, BleachedModule, bleach_module}
use llvm_bleach.Lifter.Bleach.Laws.{IsBleached, CanLift, clones_of, bleach_module-IsBleached}
use llvm_bleach.Lifter.Stats.{
  collect_register_stats, collect_functions_stats, collect_register_stats_for, add_to_matching,
  assign_register_classes, assign_class, add_reg, alias_entries, erase_named, merge_all,
  merge_subregs, update_named,
}
use llvm_bleach.Lifter.OrderedMap.{try_emplace}
use llvm_bleach.Lifter.Module.{
  clone_module, clone_functions, clone_machine_function, change_function_calls, change_block_calls,
  change_call, change_callee, change_calls_in, clone_map,
}
use llvm_bleach.Lifter.Clone.{
  create_basic_blocks_for_mfunc, replace_all_successors, clone_blocks, replace_successors,
  clone_basic_block, copy_instructions, replace_uses_of_block_with,
}
use llvm_bleach.Mctomir.Machine.{find_address}
use llvm_bleach.Formats.Symbols.{get_start_of}
use llvm_bleach.Lifter.Bleach.{entry_calls_of, finish_functions, generate_clone, generate_clones}
use llvm_bleach.Lifter.Control.{generate_jump, match_return, is_pc_relative}
use llvm_bleach.Lifter.Function.{
  fill_blocks, fill_symtab_at, find_register_by_name, generate_function, translated_blocks,
  with_addresses,
}
use llvm_bleach.Lifter.Generate.{
  close_block, fill_insts, fill_ir_for_bb, generate_instruction, generate_other, generate_plain,
  is_stack_manipulation,
}
use llvm_bleach.Lifter.Globals.{
  create_all_globals, create_global, create_section_globals, create_sections,
  create_sections_array_global, section_entries, section_entry, section_name,
}
use llvm_bleach.Lifter.StateType.{create_state_type, largest_regsize, stack_array}
use llvm_bleach.Examples.Lifting.{queries, addition, return_instr}
use llvm_bleach.Examples.Modules.{
  put, put-Replaces, jump_to, call_of, find_global, find_global-NotLocal, data_section,
  file_symbols,
}

abbrev target : Target
target = record {
  asm_name = λ r. "x";
  matches = λ rx name. true;
  matches_whole = λ rx name. true;
  classes = record { regs = 5 ∷ 6 ∷ 7 ∷ []; bits = 64 } ∷ [];
}

abbrev module_queries : Queries
module_queries = record queries { flag_call = λ o. o == 4; flag_conditional = λ o. false }

abbrev pub settings : Settings
settings = record {
  q = module_queries;
  is_branch = λ o. o == 1;
  replace_successor = put;
  target = target;
  regclasses = ("X", "x[0-9]+") ∷ [];
  subregs = [];
  get_name = λ r. if r == 2 then "X2" else "";
  llvm_classes = (2 ∷ []) ∷ [];
  stack_pointer = "X2";
  get_global_variable = find_global;
  trfinfo = [];
  sections = data_section ∷ [];
  state_struct_file = "";
  stack_size = 8000;
  finfo = some file_symbols;
  lifted_prefix = "bleached_";
  assume_functions_nop = false;
  address_of = λ f. 1000 * f;
  next_block = 8;
  next = 2;
}

abbrev main_function : SourceFunction
main_function = record {
  id = 0;
  name = "main";
  blocks =
      (
        0,
        record { parent = 0; instrs = addition ∷ call_of 1 ∷ jump_to 1 ∷ []; successors = 1 ∷ [] },
      )
      ∷ (1, record { parent = 0; instrs = return_instr ∷ []; successors = [] })
      ∷ [];
}

abbrev helper : SourceFunction
helper = record {
  id = 1;
  name = "helper";
  blocks = (0, record { parent = 1; instrs = return_instr ∷ []; successors = [] }) ∷ [];
}

abbrev pub sources : List SourceFunction
sources = main_function ∷ helper ∷ []

abbrev names_of : Result BleachError BleachedModule → List String
names_of (ok r) = map (λ f. f.name) r.functions
names_of (err e) = []

bleach_run : names_of (bleach_module settings [] sources) ≡ "bleached_main" ∷ "bleached_helper" ∷ []
unfolding bleach_module is_call is_return is_branch is_indirect_branch collect_register_stats
    collect_functions_stats collect_register_stats_for add_to_matching assign_register_classes
    assign_class add_reg alias_entries erase_named merge_all merge_subregs update_named try_emplace
    clone_module clone_functions clone_machine_function change_function_calls change_block_calls
    change_call change_callee change_calls_in clone_map create_basic_blocks_for_mfunc
    replace_all_successors clone_blocks replace_successors clone_basic_block copy_instructions
    replace_uses_of_block_with find_address get_start_of entry_calls_of finish_functions
    generate_clone generate_clones generate_jump match_return is_pc_relative fill_blocks
    fill_symtab_at find_register_by_name generate_function translated_blocks with_addresses
    close_block fill_insts fill_ir_for_bb generate_instruction generate_other generate_plain
    is_stack_manipulation create_all_globals create_global create_section_globals create_sections
    create_sections_array_global section_entries section_entry section_name create_state_type
    largest_regsize stack_array
bleach_run = refl

calls_known : All (HasKnownCalls module_queries (0 ∷ 1 ∷ [])) sources
unfolding is_call
calls_known = (
  (((λ c. cc), ((λ c. refl), ((λ c. cc), tt))), (((λ c. cc), tt), tt)),
  ((((λ c. cc), tt), tt), tt),
)

clonable : All (IsClonable 8) sources
clonable = (
  (
    (refl, (refl, tt)),
    (omega arith, (omega arith, tt)),
    (
      ((refl, tt), (refl, tt), ((tt, (tt, tt)), ((tt, tt), ((refl, tt), tt)))),
      ((tt, tt, (tt, tt)), tt),
    ),
  ),
  (((refl, tt), (omega arith, tt), ((tt, tt, (tt, tt)), tt)), tt),
)

clones_lift : All (CanLift module_queries) (clones_of settings sources)
unfolding is_call is_return is_branch is_indirect_branch
clones_lift =
    ((((refl, refl, refl, refl), ((refl, refl, refl, refl), refl)), (refl, tt)), ((refl, tt), tt))

bleach_module-IsBleached_example :
    Ensures (IsBleached settings sources) (bleach_module settings [] sources)
bleach_module-IsBleached_example =
    bleach_module-IsBleached settings [] sources put-Replaces find_global-NotLocal clonable
      calls_known clones_lift

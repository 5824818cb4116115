-- ===== src/Examples/Tools.antt =====
-- The two tools on the object of the conversion and on a small module.
use text.Mathlib.Text.{◌==◌ as str_eq}
use llvm_bleach.Base.{
  ◌≡◌, Bool, refl, true, false, String, List, [], ◌∷◌, map, Option, none, some, Result, ok, err,
  if◌then◌else◌, arith, All,
}
use llvm_bleach.Formats.Symbols.{add_functions, save_to_yaml}
use llvm_bleach.Formats.Symbols.Laws.{Bounded, symbol_of}
use llvm_bleach.Elf.Loader.{ElfError}
use llvm_bleach.Mctomir.Inst.{TranslatedFunction}
use llvm_bleach.Mctomir.Driver.{TranslationResult, LiftFileError, lift_elf_file}
use llvm_bleach.Lifter.Bleach.{BleachedModule}
use llvm_bleach.Passes.Functions.{erase_emitted}
use llvm_bleach.Tools.{Sink, write}
use llvm_bleach.Tools.Ends.{Leaves}
use llvm_bleach.Tools.Mctomir.{
  Options as ConverterOptions, Content as ConverterContent, save_symtab, main as convert,
}
use llvm_bleach.Tools.Mctomir.Laws.{is_mir, IsErrorOf, IsMirOf, main-Leaves}
use llvm_bleach.Tools.Bleach.{Options, OutputType, Llvm, Content, load_symtab, main}
use llvm_bleach.Tools.Bleach.Outcome.{is_module, IsOutputOf, IsErrorOf as IsBleachErrorOf}
use llvm_bleach.Tools.Bleach.Laws.{main-IsOutputOf, load_symtab-save_symtab}
use llvm_bleach.Lifter.Control.{
  is_call, is_return, is_branch, is_indirect_branch, generate_jump, match_return, is_pc_relative,
}
use llvm_bleach.Lifter.Bleach.{
  bleach_module, entry_calls_of, finish_functions, generate_clone, generate_clones,
}
use llvm_bleach.Lifter.Stats.{
  collect_register_stats, collect_functions_stats, collect_register_stats_for, add_to_matching,
  assign_register_classes, assign_class, add_reg, alias_entries, erase_named, merge_all,
  merge_subregs, update_named,
}
use llvm_bleach.Lifter.OrderedMap.{try_emplace}
use llvm_bleach.Lifter.Module.{
  clone_module, clone_functions, clone_machine_function, change_function_calls, change_block_calls,
  change_call, change_callee, change_calls_in, clone_map,
}
use llvm_bleach.Lifter.Clone.{
  create_basic_blocks_for_mfunc, replace_all_successors, clone_blocks, replace_successors,
  clone_basic_block, copy_instructions, replace_uses_of_block_with,
}
use llvm_bleach.Mctomir.Machine.{find_address}
use llvm_bleach.Formats.Symbols.{
  get_start_of, load_file_info_from_yaml, load_symbols, load_symbol, encode,
}
use llvm_bleach.Lifter.Function.{
  fill_blocks, fill_symtab_at, find_register_by_name, generate_function, translated_blocks,
  with_addresses,
}
use llvm_bleach.Lifter.Generate.{
  close_block, fill_insts, fill_ir_for_bb, generate_instruction, generate_other, generate_plain,
  is_stack_manipulation,
}
use llvm_bleach.Lifter.Globals.{
  create_all_globals, create_global, create_section_globals, create_sections,
  create_sections_array_global, section_entries, section_entry, section_name,
}
use llvm_bleach.Lifter.StateType.{print_members, create_state_type, largest_regsize, stack_array}
use llvm_bleach.Tools.Bleach.{
  run, read_or_translate_mir, lift_and_write, dump_instructions, write_output, run_block_ir_builder,
  write_state_header,
}
use llvm_bleach.Formats.Config.File.{
  load_from_yaml, load_const_regs, load_regclasses, load_subregs, load_instrs,
}
use llvm_bleach.Examples.Conversion.{files, translator_factories, llvm}
use llvm_bleach.Examples.Objects.{factories}
use llvm_bleach.Examples.Files.{TestNode, leaf, nothing, list_of, dict_of, yaml, yaml-laws, ones}
use llvm_bleach.Examples.Bleach.{settings, sources}

abbrev everywhere : String → Bool
everywhere name = true

abbrev converter_options : ConverterOptions
converter_options = record {
  input_filename = "a.out";
  output_filename = "a.mir";
  verbose_output = true;
  symbol_table_file = some "a.yaml";
}

main-Leaves_example :
    Leaves is_mir
      (IsErrorOf yaml ones everywhere converter_options
        (lift_elf_file files factories translator_factories llvm "a.out"))
      (IsMirOf (lift_elf_file files factories translator_factories llvm "a.out"))
      ConverterContent.error_message
      (convert yaml ones everywhere files factories translator_factories llvm converter_options)
main-Leaves_example =
    main-Leaves yaml ones everywhere files factories translator_factories llvm converter_options

abbrev functions : List TranslatedFunction
functions =
    record { insts = []; blocks = []; start = 1; end = 3; name = "main"; mfunc = 0 }
    ∷ record { insts = []; blocks = []; start = 4; end = 5; name = "helper"; mfunc = 1 }
    ∷ []

abbrev translation : TranslationResult
translation = record {
  funcs = functions;
  machine = record { mbbs = []; address_to_mbb = [] };
  sections = [];
}

abbrev config : TestNode
config = dict_of (
    ("stack-pointer", leaf "X2")
    ∷ ("register-classes", dict_of (("X", leaf "x[0-9]+") ∷ []))
    ∷ ("instructions", list_of [])
    ∷ [])

-- The symbols are in one file, and the instructions in another.
abbrev contents : String → Option TestNode
contents name =
    if str_eq name "a.yaml"
    then some (save_to_yaml yaml ones (add_functions functions []))
    else if str_eq name "instrs.yaml"
    then some config
    else none

abbrev names_of : BleachedModule → String
names_of m = elim m.functions [ [] ↦ "" | f ∷ fs ↦ f.name ]

abbrev ir : Llvm TestNode String String
ir = record {
  extension = λ name. ".mir";
  parse_mir = λ name. ok ([], sources);
  module_of = λ res. ([], sources);
  parse_ir = λ text. some text;
  print_ir = λ m. m;
  ir_of = names_of;
  inliner = λ m. m;
  sroa = λ m. m;
  translate = λ m. none;
  read_file = contents;
  no_text = nothing;
  can_open = everywhere;
}

abbrev options : Options
options = record {
  input_file_name = "a.mir";
  instructions_file = some "instrs.yaml";
  dump_input_mir = true;
  dump_input_instructions = none;
  no_inline_opt = false;
  assume_function_nop = false;
  dump_struct_def_option = "state.h";
  stack_size_option = 8000;
  symtab_file = some "a.yaml";
  lifted_prefix = "bleached_";
  output_filename = "-";
  output_type = OutputType.llvm;
}

-- The input is a MIR file, so nothing is lifted.
abbrev not_lifted : Result LiftFileError TranslationResult
not_lifted = err (LiftFileError.failed_to_read ElfError.not_loaded)

main-IsOutputOf_example :
    Leaves
      (is_module yaml ir)
      (IsBleachErrorOf yaml ir settings options not_lifted)
      (IsOutputOf yaml ir settings options not_lifted)
      Content.error_message
      (main yaml ir settings options not_lifted)
main-IsOutputOf_example = main-IsOutputOf yaml ir settings options not_lifted

load_symtab-save_symtab_example :
    (save_symtab yaml ones everywhere converter_options translation
      ≡ write
          (Sink.file "a.yaml")
          (ConverterContent.symtab (save_to_yaml yaml ones (add_functions functions []))))
    × (load_symtab yaml ir options ≡ ([], ok (some (map symbol_of functions))))
load_symtab-save_symtab_example =
    load_symtab-save_symtab yaml ones yaml-laws ir everywhere "a.yaml" converter_options options
      translation refl refl refl refl small refl
  where
    small : All (λ f. Bounded (symbol_of f)) functions
    small = ((omega arith, omega arith), ((omega arith, omega arith), tt))

tool_run :
    (main yaml ir settings options not_lifted).writes
    ≡ (Sink.standard_output, Content.machine_functions sources)
      ∷ (
        Sink.file "state.h",
        Content.state_header
            (record { bits = 64; name = "X"; count = 3 }
              ∷ record { bits = 64; name = "stack"; count = 1000 }
              ∷ [])
            ("bleached_main" ∷ "bleached_helper" ∷ []),
      )
      ∷ (Sink.standard_output, Content.ir_module "bleached_main")
      ∷ []
unfolding main run read_or_translate_mir lift_and_write run_block_ir_builder write_state_header
    print_members dump_instructions write_output load_symtab save_to_yaml erase_emitted
    load_from_yaml load_const_regs load_regclasses load_subregs load_instrs load_file_info_from_yaml
    load_symbols load_symbol encode bleach_module is_call is_return is_branch is_indirect_branch
    collect_register_stats collect_functions_stats collect_register_stats_for add_to_matching
    assign_register_classes assign_class add_reg alias_entries erase_named merge_all merge_subregs
    update_named try_emplace clone_module clone_functions clone_machine_function
    change_function_calls change_block_calls change_call change_callee change_calls_in clone_map
    create_basic_blocks_for_mfunc replace_all_successors clone_blocks replace_successors
    clone_basic_block copy_instructions replace_uses_of_block_with find_address get_start_of
    entry_calls_of finish_functions generate_clone generate_clones generate_jump match_return
    is_pc_relative fill_blocks fill_symtab_at find_register_by_name generate_function
    translated_blocks with_addresses close_block fill_insts fill_ir_for_bb generate_instruction
    generate_other generate_plain is_stack_manipulation create_all_globals create_global
    create_section_globals create_sections create_sections_array_global section_entries
    section_entry section_name create_state_type largest_regsize stack_array
tool_run = refl

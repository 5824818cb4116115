-- ===== src/Examples/Conversion.antt =====
-- A section of three bytes that is converted: at 64 an instruction, at 65 a return, and at 66 what
-- belongs to no function.
use llvm_bleach.Base.{
  ℕ, ◌==◌, ◌≡◌, refl, true, false, [], ◌∷◌, ◌⊎◌, Option, none, some, ok, All, Ensures,
}
use llvm_bleach.Elf.Loader.{Section, ObjectFile, Format, ElfLoader, Files}
use llvm_bleach.Mctomir.Inst.{McInst}
use llvm_bleach.Mctomir.Decode.{Decode, decode_functions, decode_function, decode_from}
use llvm_bleach.Mctomir.Decode.Functions.{
  SymbolType, find_functions, collect_functions, push_function, named_code, sort_by_start,
  insert_by_start,
}
use llvm_bleach.Mctomir.Finalize.Whole.{IsWhole}
use llvm_bleach.Mctomir.Finalize.Closed.{AllClosed}
use llvm_bleach.Mctomir.Convert.{
  Llvm, process_disassembly, convert_section, convert_section-IsWhole,
}
use llvm_bleach.Mctomir.Sections.{Readable}
use llvm_bleach.Mctomir.Driver.{TranslatorFactories, TranslationResult, lift_elf_file}
use llvm_bleach.Mctomir.Driver.Laws.{IsTranslation, FailsEarly, lift_elf_file-IsTranslation}
use llvm_bleach.Examples.Objects.{factories}

abbrev data_section : Section
data_section = record {
  name = some ".data";
  contents = some (1 ∷ 65 ∷ 3 ∷ []);
  address = 64;
  is_data = true;
  flags = 3;
}

abbrev comment_section : Section
comment_section = record { name = none; contents = none; address = 0; is_data = false; flags = 0 }

abbrev obj : ObjectFile
obj = record {
  is_elf = true;
  is_elf_base = true;
  format = Format.elf_64_le;
  e_type = 2;
  e_machine = 243;
  sections = comment_section ∷ data_section ∷ [];
}

abbrev loader : ElfLoader
loader = record { buffer = some (127 ∷ 69 ∷ []); obj_file = some obj; elf_obj = some obj }

abbrev inst_of : ℕ → McInst
inst_of opcode = record { opcode = opcode; operands = [] }

abbrev decode : Decode
decode [] a = none
decode (b ∷ bs) a = some (inst_of b, 1)

abbrev no_target : McInst → ℕ → ℕ → Option ℕ
no_target i addr size = none

abbrev pub llvm : Llvm
llvm = record {
  symbols =
      record {
        name = some "f";
        type = some SymbolType.function_type;
        value = some 64;
        size = 2;
        in_elf = true;
      }
      ∷ [];
  is_initialized = true;
  makes_analysis = true;
  makes_disassembler = true;
  decode = decode;
  mia = record {
    is_branch = λ i. false;
    is_unconditional_branch = λ i. false;
    is_return = λ i. i.opcode == 65;
    is_call = λ i. false;
    evaluate_branch = no_target;
  };
  info = record { num_defs = λ o. 0; num_operands = λ o. 0; g_br = 99 };
}

convert_section-IsWhole_example :
    Ensures
      (λ r. All IsWhole r.0 × AllClosed r.1)
      (convert_section llvm loader ".data" [] (record { mbbs = []; address_to_mbb = [] }))
convert_section-IsWhole_example = convert_section-IsWhole llvm loader ".data"

process_run :
    process_disassembly llvm 64 (1 ∷ 65 ∷ 3 ∷ []) []
    ≡ ok (
        record {
          insts =
              record { address = 64; inst = inst_of 1 }
              ∷ record { address = 65; inst = inst_of 65 }
              ∷ [];
          blocks = [];
          start = 64;
          end = 66;
          name = "f";
          mfunc = 0;
        }
        ∷ [])
unfolding process_disassembly find_functions collect_functions push_function named_code
    sort_by_start insert_by_start decode_functions decode_function decode_from
process_run = refl

abbrev text_section : Section
text_section = record {
  name = some ".text";
  contents = some (1 ∷ 65 ∷ 3 ∷ []);
  address = 64;
  is_data = false;
  flags = 6;
}

abbrev program : ObjectFile
program = record obj { sections = text_section ∷ data_section ∷ [] }

abbrev pub files : Files
files = record {
  exists = λ path. true;
  get_file = λ path. some (127 ∷ 69 ∷ []);
  create_object = λ bytes. some program;
}

abbrev pub translator_factories : TranslatorFactories
translator_factories = record {
  lookup_target = λ a. true;
  target_machine = λ a f. true;
  subtarget_info = λ a f. true;
  instr_info = λ a f. true;
  register_info = λ a f. true;
}

program-Readable : All Readable program.sections
program-Readable = (
  λ d. (".text", 1 ∷ 65 ∷ 3 ∷ [], refl, refl),
  ((λ d. (".data", 1 ∷ 65 ∷ 3 ∷ [], refl, refl)), tt),
)

lift_elf_file-IsTranslation_example :
    ((r : TranslationResult) × (lift_elf_file files factories translator_factories llvm "a.out"
        ≡ ok r)
      × IsTranslation program r)
    ⊎ FailsEarly (lift_elf_file files factories translator_factories llvm "a.out")
lift_elf_file-IsTranslation_example =
    lift_elf_file-IsTranslation files factories translator_factories llvm "a.out" (127 ∷ 69 ∷ [])
      program refl refl program-Readable

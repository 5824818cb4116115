-- ===== src/Elf/Target.antt =====
-- `elf_disassembler::initialize` and `get_disasm_features`. A component of the disassembler is only
-- known as made or not; `Factories` says which of them LLVM can make for a triple.
pub mod Laws
use llvm_bleach.Base.{
  Bool, true, false, String, Option, none, some, Result, ok, err, ◌>>=◌, or_error, not,
  if◌then◌else◌,
}
use llvm_bleach.Elf.Loader.{ElfLoader, ObjectFile}

-- The architectures that the code tells apart.
pub data Arch : Type 0 where
  riscv64 riscv32 aarch64 x86_64 other_arch : Arch

pub data InitError : Type 0 where
  no_triple no_target no_register_info no_asm_info no_features no_subtarget_info : InitError
  no_instr_info no_disassembler no_printer unsupported_arch : InitError

-- What LLVM makes: `features` reads those of the object, `subtarget_info` depends on the features.
pub record Factories : Type 0 where
  pub arch : ObjectFile → Arch
  pub features : ObjectFile → Option String
  pub lookup_target : Arch → Bool
  pub register_info : Arch → Bool
  pub asm_info : Arch → Bool
  pub subtarget_info : Arch → String → Bool
  pub instr_info : Arch → Bool
  pub disassembler : Arch → Bool
  pub printer : Arch → Bool

-- The members that `initialize` sets, and the flag.
pub record Disassembler : Type 0 where
  pub target : Bool
  pub mri : Bool
  pub mai : Bool
  pub sti : Option String
  pub mii : Bool
  pub dis_asm : Bool
  pub inst_printer : Bool
  pub initialized : Bool

unfoldable pub get_triple : Factories → ElfLoader → Result InitError Arch
get_triple fs l = do obj ← or_error l.elf_obj InitError.no_triple; ok (fs.arch obj)

get_features : Factories → ElfLoader → Result InitError String
get_features fs l = do
  obj ← or_error l.elf_obj InitError.no_features
  or_error (fs.features obj) InitError.no_features

abbrev pub features_for : Arch → String → Result InitError String
features_for Arch.riscv64 features = ok features
features_for Arch.riscv32 features = ok features
features_for Arch.aarch64 features = ok "+all"
features_for Arch.x86_64 features = ok "+nopl"
features_for Arch.other_arch features = err InitError.unsupported_arch

unfoldable pub get_disasm_features : Factories → ElfLoader → Result InitError String
unfolding get_features
get_disasm_features fs l = do
  arch ← get_triple fs l
  features ← get_features fs l
  features_for arch features

-- A step of `initialize`: the member is set to what was made, and the run stops if that is nothing.
abbrev pub Step : Type 0
Step = Disassembler × Result InitError (Unit {0})

abbrev pub stage : Bool → Disassembler → InitError → Step → Step
stage made failed e next = if made then next else (failed, err e)

-- The members from the instruction information on.
unfoldable pub initialize_tail : Factories → Arch → Disassembler → Step
initialize_tail fs arch d =
    stage (fs.instr_info arch) (record d { mii = false }) InitError.no_instr_info
      (stage (fs.disassembler arch) (record d { mii = true; dis_asm = false })
        InitError.no_disassembler
        (stage (fs.printer arch) (record d { mii = true; dis_asm = true; inst_printer = false })
          InitError.no_printer
          (
            record d { mii = true; dis_asm = true; inst_printer = true; initialized = true },
            ok tt,
          )))

unfoldable pub initialize_features : Factories → ElfLoader → Arch → Disassembler → Step
initialize_features fs l arch d = elim (get_disasm_features fs l) [
  | err e ↦ (d, err InitError.no_features)
  | ok features ↦
      stage (fs.subtarget_info arch features) (record d { sti = none }) InitError.no_subtarget_info
        (initialize_tail fs arch (record d { sti = some features }))
]

unfoldable pub initialize : Factories → ElfLoader → Disassembler → Step
initialize fs l d = if d.initialized then (d, ok tt) else elim (get_triple fs l) [
  | err e ↦ (d, err e)
  | ok arch ↦
      stage (fs.lookup_target arch) (record d { target = false }) InitError.no_target
        (stage (fs.register_info arch) (record d { target = true; mri = false })
          InitError.no_register_info
          (stage (fs.asm_info arch) (record d { target = true; mri = true; mai = false })
            InitError.no_asm_info
            (initialize_features fs l arch (record d { target = true; mri = true; mai = true }))))
]

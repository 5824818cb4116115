-- ===== src/Tools/Bleach/Header.antt =====
-- The header at the end of `bleach_module` (lib/lifter/lifter.cpp), as the tool writes it.
use text.Mathlib.Text.{◌==◌ as str_eq}
use llvm_bleach.Base.{String, map, if◌then◌else◌}
use llvm_bleach.Lifter.StateType.{print_members}
use llvm_bleach.Lifter.Bleach.{BleachedModule}
use llvm_bleach.Tools.{Sink, Tool, ◌>>=◌, done, write, throw, lift_result}
use llvm_bleach.Tools.Bleach.Types.{ToolError, Llvm, Content}

module _ {Text IrModule Mlir : Type 0} (llvm : Llvm Text IrModule Mlir) where
  abbrev pub print_state_header :
      Sink → BleachedModule → Tool (Content Text IrModule Mlir) ToolError (Unit {0})
  print_state_header os m = do
    members ← lift_result ToolError.in_header (print_members m.stats m.state)
    write os (Content.state_header members (map (λ f. f.name) m.functions))

  -- The header at the end of `bleach_module`.
  unfoldable pub write_state_header :
      String → BleachedModule → Tool (Content Text IrModule Mlir) ToolError (Unit {0})
  write_state_header state_struct_file m =
      if str_eq state_struct_file ""
      then done
      else if str_eq state_struct_file "-"
      then print_state_header Sink.standard_output m
      else if llvm.can_open state_struct_file
      then print_state_header (Sink.file state_struct_file) m
      else throw (ToolError.no_state_file state_struct_file)

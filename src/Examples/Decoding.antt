-- ===== src/Examples/Decoding.antt =====
-- A decoder of instructions of two bytes, a listing, and a function of a section at 100.
use mathlib.Core.List.{Perm}
use llvm_bleach.Base.{
  ℕ, ◌≤◌, ◌<◌, ◌≡◌, refl, true, List, [], ◌∷◌, ◌++◌, Option, none, some, ok, length, arith,
}
use llvm_bleach.Mctomir.Inst.{McInst, TranslatedInst, TranslatedFunction}
use llvm_bleach.Mctomir.Decode.{Decode, decode_function}
use llvm_bleach.Mctomir.Decode.Laws.{Rising, IsDecoded, TakesBytes, decode_function_total}
use llvm_bleach.Mctomir.Decode.Functions.{Symbol, SymbolType, find_functions}
use llvm_bleach.Mctomir.Decode.Functions.Laws.{find_functions-Sorted, FunctionsOf, Sorted}
use llvm_bleach.Elf.Listing.{Line, disassemble_bytes, listing, line_at}
use llvm_bleach.Elf.Listing.Laws.{shown_lines, LinesAt, disassemble_bytes_shows}

abbrev inst_of : ℕ → McInst
inst_of opcode = record { opcode = opcode; operands = [] }

abbrev decode : Decode
decode [] a = none
decode (b ∷ []) a = none
decode (b ∷ c ∷ bs) a = some (inst_of b, 2)

decode-TakesBytes : TakesBytes decode
decode-TakesBytes [] a inst size e = ground arith
decode-TakesBytes (b ∷ []) a inst size e = ground arith
decode-TakesBytes (b ∷ c ∷ bs) a inst size e = ground arith

decode_positive : (bs : List ℕ) (a : ℕ) (i : McInst) (n : ℕ) → decode bs a ≡ some (i, n) → 0 < n
decode_positive bs a i n e = (decode-TakesBytes bs a i n e).0

abbrev bytes : List ℕ
bytes = 7 ∷ 0 ∷ 8 ∷ 0 ∷ 9 ∷ []

disassemble_bytes_run :
    disassemble_bytes decode true bytes 100
    ≡ ok (
        record { address = 100; bytes = 7 ∷ 0 ∷ []; inst = some (inst_of 7) }
        ∷ record { address = 102; bytes = 8 ∷ 0 ∷ []; inst = some (inst_of 8) }
        ∷ record { address = 104; bytes = 9 ∷ []; inst = none }
        ∷ [])
unfolding disassemble_bytes listing line_at
disassemble_bytes_run = refl

disassemble_bytes_shows_example :
    (ls : List (Line McInst)) × (disassemble_bytes decode true bytes 100 ≡ ok ls)
    × (shown_lines ls ≡ bytes)
    × LinesAt 100 ls
    × (length ls ≤ length bytes)
disassemble_bytes_shows_example =
    disassemble_bytes_shows decode decode_positive bytes 100 (omega arith)

abbrev fun : TranslatedFunction
fun = record { insts = []; blocks = []; start = 100; end = 104; name = "f"; mfunc = 0 }

decode_function_total_example :
    (insts : List TranslatedInst) × (decode_function decode 100 bytes 3 fun
      ≡ ok (record fun { insts = insts; mfunc = 3 }))
    × Rising 100 104 insts
    × IsDecoded decode 100 bytes insts
decode_function_total_example =
    decode_function_total decode decode-TakesBytes 100 bytes (omega arith) 3 fun refl (omega arith)
      (omega arith)

abbrev symbol : Option SymbolType → ℕ → Symbol
symbol type value = record {
  name = some "f";
  type = type;
  value = some value;
  size = 8;
  in_elf = true;
}

abbrev symbols : List Symbol
symbols =
    symbol (some SymbolType.function_type) 40
    ∷ symbol none 20
    ∷ symbol (some SymbolType.unknown_type) 8
    ∷ []

find_functions-Sorted_example :
    (fs : List TranslatedFunction) × (new : List TranslatedFunction) × (find_functions symbols
        (fun ∷ [])
      ≡ ok fs)
    × FunctionsOf symbols new
    × Sorted fs
    × Perm fs (fun ∷ [] ++ new)
find_functions-Sorted_example = find_functions-Sorted symbols (fun ∷ []) (refl, (refl, (refl, tt)))

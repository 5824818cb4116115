-- ===== src/Mctomir/Decode.antt =====
-- `translator_t::process_disassembly`, `set_section`, `get_access` and `is_data_section`
-- (lib/mctomir/mctomir-transform.cpp), and `elf_to_mir_converter::read_sections`.
-- `decode` stands for `MCDisassembler::getInstruction`. The checks that LLVM objects were made, the
-- making of the IR function and of the machine function, and the message on `errs` are left out.
pub mod Functions
pub mod Laws
use llvm_bleach.Base.{
  ℕ, zero, suc, ◌+◌, ◌-◌, ◌≤◌, Bool, true, false, ◌&&◌, ◌||◌, not, String, List, [], ◌∷◌, ◌++◌,
  Option, none, some, Result, ok, err, ◌>>=◌, length, drop, ltb, leb, add64, sub64, if◌then◌else◌,
}
use llvm_bleach.Mctomir.Inst.{McInst, TranslatedInst, TranslatedFunction}

abbrev pub Decode : Type 0
Decode = List ℕ → ℕ → Option (McInst × ℕ)

-- `slice_out_of_range` is the assertion of `ArrayRef::slice`.
pub data DecodeError : Type 0 where
  slice_out_of_range out_of_fuel : DecodeError

abbrev pub next_address : ℕ → Option (McInst × ℕ) → ℕ
next_address addr none = add64 addr 1
next_address addr (some (inst, size)) = add64 addr size

abbrev pub decoded : ℕ → Option (McInst × ℕ) → List TranslatedInst → List TranslatedInst
decoded addr none rest = rest
decoded addr (some (inst, size)) rest = record { address = addr; inst = inst } ∷ rest

-- The loop of one function from an address, on fuel.
unfoldable pub decode_from :
    Decode → ℕ → List ℕ → ℕ → ℕ → ℕ → Result DecodeError (List TranslatedInst)
decode_from decode section_addr bytes zero end addr = err DecodeError.out_of_fuel
decode_from decode section_addr bytes (suc fuel) end addr =
    let diff = sub64 addr section_addr in
    let d = decode (drop diff bytes) addr in
    let rest = (do
      more ← decode_from decode section_addr bytes fuel end (next_address addr d)
      ok (decoded addr d more)) in
    if ltb addr end
    then (if leb diff (length bytes) then rest else err DecodeError.slice_out_of_range)
    else ok []

-- One round for each address of the function, and one for the end; `mfunc` is the machine function
-- that is made for it.
unfoldable pub decode_function :
    Decode → ℕ → List ℕ → ℕ → TranslatedFunction → Result DecodeError TranslatedFunction
decode_function decode section_addr bytes mfunc f = do
  insts ← decode_from decode section_addr bytes (suc (f.end - f.start)) f.end f.start
  ok (record f { insts = f.insts ++ insts; mfunc = mfunc })

-- The loop over the functions: each one gets a machine function of its own.
unfoldable pub decode_functions :
    Decode → ℕ → List ℕ → ℕ → List TranslatedFunction → Result DecodeError (List TranslatedFunction)
decode_functions decode section_addr bytes mfunc [] = ok []
decode_functions decode section_addr bytes mfunc (f ∷ fs) = do
  g ← decode_function decode section_addr bytes mfunc f
  gs ← decode_functions decode section_addr bytes (suc mfunc) fs
  ok (g ∷ gs)

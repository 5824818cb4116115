-- ===== src/Elf/Listing.antt =====
-- `elf_disassembler::disassemble_bytes` and `disassemble_section`. A line keeps the address, the bytes
-- that are shown, and the instruction, or nothing for `<invalid>`. `decode` stands for
-- `MCDisassembler::getInstruction`: an instruction and the number of bytes that it takes.
pub mod Laws
use llvm_bleach.Base.{
  ℕ, zero, suc, ◌+◌, Bool, true, false, String, List, [], ◌∷◌, Option, none, some, Result, ok, err,
  ◌>>=◌, length, take, drop, ltb, add64, if◌then◌else◌,
}
use llvm_bleach.Elf.Loader.{ElfLoader, ElfError, get_section_by_name, get_section_contents}

abbrev pub Decoder : Type 0 → Type 0
Decoder I = List ℕ → ℕ → Option (I × ℕ)

pub record Line (I : Type 0) : Type 0 where
  pub address : ℕ
  pub bytes : List ℕ
  pub inst : Option I

pub data ListingError : Type 0 where
  in_loader : ElfError → ListingError
  out_of_fuel : ListingError

module _ {I : Type 0} (decode : Decoder I) (show_bytes : Bool) where
  -- The line at an index, and the number of bytes to go on by.
  unfoldable pub line_at : List ℕ → ℕ → ℕ → Line I × ℕ
  line_at bytes index address = elim (decode (drop index bytes) address) [
    | some (inst, size) ↦ (
      record {
        address = address;
        bytes = if show_bytes then take size (drop index bytes) else [];
        inst = some inst;
      },
      size,
    )
    | none ↦ (
      record {
        address = address;
        bytes = if show_bytes then take 1 (drop index bytes) else [];
        inst = none;
      },
      1,
    )
  ]

  -- The loop, on fuel: an instruction of no bytes would keep it where it is.
  unfoldable pub listing : ℕ → List ℕ → ℕ → ℕ → Result ListingError (List (Line I))
  listing zero bytes index address = err out_of_fuel
  listing (suc fuel) bytes index address =
      let step = line_at bytes index address in
      let rest = (do
        ls ← listing fuel bytes (index + step.1) (add64 address step.1)
        ok (step.0 ∷ ls)) in
      if ltb index (length bytes) then rest else ok []

  -- One round for each byte, and one for the end. `initialize` has been called before: the call
  -- that stands here for a disassembler that is not initialized, and its error, are left out.
  unfoldable pub disassemble_bytes : List ℕ → ℕ → Result ListingError (List (Line I))
  disassemble_bytes bytes address = listing (suc (length bytes)) bytes 0 address

  abbrev pub from_loader {ℓ} : {A : Type ℓ} → Result ElfError A → Result ListingError A
  from_loader (ok a) = ok a
  from_loader (err e) = err (in_loader e)

  -- `initialize` has been called before.
  unfoldable pub disassemble_section : ElfLoader → String → Result ListingError (List (Line I))
  disassemble_section l name = do
    section ← from_loader (get_section_by_name l name)
    bytes ← from_loader (get_section_contents l section)
    disassemble_bytes bytes section.address

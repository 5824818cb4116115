-- ===== src/Elf/Dump.antt =====
-- `elf_disassembler::dump_section`: rows of sixteen bytes. A row keeps what is printed of it: the
-- address, the cells with a byte or three spaces, and the characters behind them.
-- `is_print` stands for `llvm::isPrint`.
pub mod Laws
use llvm_bleach.Base.{
  ℕ, zero, suc, ◌+◌, ◌*◌, Bool, String, List, [], ◌∷◌, map, Option, none, some, Result, ok, err,
  ◌>>=◌, length, get_elem?, ltb, add64, if◌then◌else◌,
}
use llvm_bleach.Elf.Loader.{ElfLoader, ElfError, get_section_by_name, get_section_contents}

pub record Row : Type 0 where
  pub address : Option ℕ
  pub cells : List (Option ℕ)
  pub ascii : List ℕ

pub record SectionDump : Type 0 where
  pub name : String
  pub size : ℕ
  pub rows : List Row

-- `bytes[i]`, for the `n` offsets from `i` on, while `i < bytes.size()`.
unfoldable pub cells_from : List ℕ → ℕ → ℕ → List (Option ℕ)
cells_from bytes i zero = []
cells_from bytes i (suc n) = get_elem? bytes i ∷ cells_from bytes (i + 1) n

abbrev pub ascii_of : (ℕ → Bool) → Option ℕ → ℕ
ascii_of is_print none = b' '
ascii_of is_print (some byte) = if is_print byte then byte else b'.'

abbrev pub bytes_per_row : ℕ
bytes_per_row = 16

unfoldable pub dump_row : (ℕ → Bool) → ℕ → Bool → List ℕ → ℕ → Row
dump_row is_print section_addr show_address bytes offset =
    let cells = cells_from bytes offset bytes_per_row in
    record {
      address = if show_address then some (add64 section_addr offset) else none;
      cells = cells;
      ascii = map (ascii_of is_print) cells;
    }

-- The loop over the offsets, on fuel: no more rows than bytes are printed.
unfoldable pub dump_rows : ℕ → (ℕ → Bool) → ℕ → Bool → List ℕ → ℕ → List Row
dump_rows zero is_print section_addr show_address bytes offset = []
dump_rows (suc fuel) is_print section_addr show_address bytes offset =
    let rest =
      dump_row is_print section_addr show_address bytes offset
      ∷ dump_rows fuel is_print section_addr show_address bytes (offset + bytes_per_row) in
    if ltb offset (length bytes) then rest else []

unfoldable pub dump_section : (ℕ → Bool) → ElfLoader → String → Bool → Result ElfError SectionDump
dump_section is_print l section_name show_address = do
  section ← get_section_by_name l section_name
  bytes ← get_section_contents l section
  ok (record {
    name = section_name;
    size = length bytes;
    rows = dump_rows (length bytes) is_print section.address show_address bytes 0;
  })

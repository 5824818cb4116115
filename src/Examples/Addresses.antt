-- ===== src/Examples/Addresses.antt =====
-- Two sections that overlap, a section at the end of the address space, and a table of functions.
use llvm_bleach.Base.{◌≡◌, refl, List, [], ◌∷◌, none, some, arith}
use llvm_bleach.Runtime.SectionLookup.{BleachSection, try_get_real_addr, try_get_real_addr_wrap}
use llvm_bleach.Runtime.Symtab.{Symtab}

abbrev sections : List BleachSection
sections =
    record { host = 5000; start = 16; size = 8 }
    ∷ record { host = 6000; start = 20; size = 100 }
    ∷ []

try_get_real_addr_run : try_get_real_addr 22 sections ≡ some 5006
unfolding try_get_real_addr
try_get_real_addr_run = refl

abbrev last_page : BleachSection
last_page = record { host = 5000; start = 18446744073709547520; size = 4096 }

try_get_real_addr_wrap_example : try_get_real_addr 18446744073709547600 (last_page ∷ []) ≡ none
try_get_real_addr_wrap_example =
    try_get_real_addr_wrap 18446744073709547600 last_page refl (omega arith, omega arith)

abbrev table : Symtab
table = (8, 1) ∷ []

-- ===== src/Mctomir/Convert.antt =====
-- `process_disassembly` as a whole, and `elf_to_mir_converter::convert_section`
-- (lib/mctomir/mctomir-transform.cpp). `Llvm` holds what LLVM makes, what it reads of the object, and
-- what it says of instructions. Left out are the messages on the stream of errors. The check of `tii`
-- in `translate_instructions` cannot fail behind the same one of `process_disassembly`.
use llvm_bleach.Base.{
  map_error, Ensures-map_error, refl, inl, inr, ℕ, suc, ◌-◌, String, List, [], ◌∷◌, Option, none,
  some, Result, ok, err, ◌>>=◌, All, All-append, Bool-cases, Ensures, Ensures-bind, Ensures-any,
  Ensures-if, leb, Bool, not, if◌then◌else◌,
}
use llvm_bleach.Elf.Loader.{ElfLoader, ElfError, get_section_by_name, get_section_contents}
use llvm_bleach.Mctomir.Inst.{InstrAnalysis, TranslatedFunction}
use llvm_bleach.Mctomir.Machine.{Machine}
use llvm_bleach.Mctomir.Decode.{Decode, DecodeError, decode_function, decode_functions, decode_from}
use llvm_bleach.Mctomir.Decode.Functions.{
  Symbol, SymbolError, named_code, collect_functions, insert_by_start, sort_by_start,
  find_functions, push_function,
}
use llvm_bleach.Mctomir.Translate.{InstrInfo}
use llvm_bleach.Mctomir.Finalize.{FinalizeError, finalize}
use llvm_bleach.Mctomir.Finalize.Whole.{IsWhole, IsFresh, finalize-IsWhole}
use llvm_bleach.Mctomir.Finalize.Closed.{AllClosed, finalize-AllClosed}

pub data ConvertError : Type 0 where
  in_elf : ElfError → ConvertError
  in_symbols : SymbolError → ConvertError
  in_decode : DecodeError → ConvertError
  in_finalize : FinalizeError → ConvertError
  -- `translator not properly initialized`
  not_initialized : ConvertError
  -- `Failed to create MCInstrAnalysis`, `Failed to create disassembler`
  no_analysis no_disassembler : ConvertError

pub record Llvm : Type 0 where
  -- The objects of the translator, and what `Target` makes, are there.
  pub is_initialized : Bool
  pub makes_analysis : Bool
  pub makes_disassembler : Bool
  pub symbols : List Symbol
  pub decode : Decode
  pub mia : InstrAnalysis
  pub info : InstrInfo

unfoldable pub process_disassembly :
    Llvm → ℕ → List ℕ → List TranslatedFunction → Result ConvertError (List TranslatedFunction)
process_disassembly llvm section_addr bytes funcs =
    if not llvm.is_initialized
    then err not_initialized
    else if not llvm.makes_analysis
    then err no_analysis
    else if not llvm.makes_disassembler
    then err no_disassembler
    else (do
      fs ← map_error in_symbols (find_functions llvm.symbols funcs)
      map_error in_decode (decode_functions llvm.decode section_addr bytes 0 fs))

unfoldable pub convert_section :
    Llvm
    → ElfLoader
    → String
    → List TranslatedFunction
    → Machine
    → Result ConvertError (List TranslatedFunction × Machine)
convert_section llvm l name funcs m = do
  section ← map_error in_elf (get_section_by_name l name)
  contents ← map_error in_elf (get_section_contents l section)
  fs ← process_disassembly llvm section.address contents funcs
  map_error in_finalize (finalize llvm.mia llvm.info fs m)

both :
    {E A : Type 0} (P Q : A → Type 0) (r : Result E A)
    → Ensures P r
    → Ensures Q r
    → Ensures (λ a. P a × Q a) r
both P Q (ok a) h k = (h, k)
both P Q (err e) h k = tt

push_function-IsFresh :
    (s : Symbol) (o : Option (String × ℕ)) (fs : List TranslatedFunction)
    → All IsFresh fs
    → Ensures (All IsFresh) (push_function s o fs)
unfolding push_function
push_function-IsFresh s none fs h = h
push_function-IsFresh s (some (n, a)) fs h = elim (Bool-cases s.in_elf) [
  | inl e ↦ rw e (All-append IsFresh fs _ h (refl, tt))
  | inr e ↦ rw e tt
]

collect-IsFresh :
    (ss : List Symbol) (fs : List TranslatedFunction)
    → All IsFresh fs
    → Ensures (All IsFresh) (collect_functions ss fs)
unfolding collect_functions
collect-IsFresh [] fs h = h
collect-IsFresh (s ∷ ss) fs h =
    Ensures-bind (All IsFresh) (All IsFresh) (push_function s (named_code s) fs) _
      (push_function-IsFresh s (named_code s) fs h) (λ fs' h'. collect-IsFresh ss fs' h')

insert-IsFresh :
    (f : TranslatedFunction) (fs : List TranslatedFunction)
    → IsFresh f
    → All IsFresh fs
    → All IsFresh (insert_by_start f fs)
unfolding insert_by_start
insert-IsFresh f [] h k = (h, tt)
insert-IsFresh f (g ∷ fs) h k = elim (Bool-cases (leb f.start g.start)) [
  | inl e ↦ rw e (h, k)
  | inr e ↦ rw e (k.0, insert-IsFresh f fs h k.1)
]

sort-IsFresh : (fs : List TranslatedFunction) → All IsFresh fs → All IsFresh (sort_by_start fs)
unfolding sort_by_start
sort-IsFresh [] h = tt
sort-IsFresh (f ∷ fs) h = insert-IsFresh f (sort_by_start fs) h.0 (sort-IsFresh fs h.1)

decode-IsFresh :
    (decode : Decode) (addr : ℕ) (bytes : List ℕ) (fs : List TranslatedFunction) (mfunc : ℕ)
    → All IsFresh fs
    → Ensures (All IsFresh) (decode_functions decode addr bytes mfunc fs)
unfolding decode_functions decode_function
decode-IsFresh decode addr bytes [] mfunc h = tt
decode-IsFresh decode addr bytes (f ∷ fs) mfunc h =
    Ensures-bind IsFresh (All IsFresh) (decode_function decode addr bytes mfunc f) _
      (Ensures-bind (λ _. Unit {0}) IsFresh
        (decode_from decode addr bytes (suc (f.end - f.start)) f.end f.start) _ (Ensures-any _)
        (λ is u. h.0))
      (λ g hg.
        Ensures-bind (All IsFresh) (All IsFresh) (decode_functions decode addr bytes (suc mfunc) fs)
          _ (decode-IsFresh decode addr bytes fs (suc mfunc) h.1) (λ gs hgs. (hg, hgs)))

process-IsFresh :
    (llvm : Llvm) (addr : ℕ) (bytes : List ℕ)
    → Ensures (All IsFresh) (process_disassembly llvm addr bytes [])
unfolding process_disassembly find_functions
process-IsFresh llvm addr bytes =
    Ensures-if (All IsFresh) (not llvm.is_initialized) (err not_initialized) _ tt (
      Ensures-if (All IsFresh) (not llvm.makes_analysis) (err no_analysis) _ tt
        (Ensures-if (All IsFresh) (not llvm.makes_disassembler) (err no_disassembler) _ tt decoded))
  where
    decoded : Ensures (All IsFresh) (
        map_error in_symbols (find_functions llvm.symbols []) >>= λ fs.
        map_error in_decode (decode_functions llvm.decode addr bytes 0 fs))
    decoded =
        Ensures-bind (All IsFresh) (All IsFresh)
          (map_error in_symbols (find_functions llvm.symbols [])) _
          (Ensures-map_error in_symbols (All IsFresh) (find_functions llvm.symbols []) (
            Ensures-bind (All IsFresh) (All IsFresh) (collect_functions llvm.symbols []) _
              (collect-IsFresh llvm.symbols [] tt) sort-IsFresh))
          (λ fs h.
            Ensures-map_error in_decode (All IsFresh) (decode_functions llvm.decode addr bytes 0 fs)
              (decode-IsFresh llvm.decode addr bytes fs 0 h))

-- On a translator with no functions yet and no machine blocks, a section is converted into functions
-- whose blocks hold exactly their instructions, in order, and machine blocks whose block operands are
-- all among their successors; or an error is reported.
pub convert_section-IsWhole :
    (llvm : Llvm) (l : ElfLoader) (name : String)
    → Ensures
        (λ r. All IsWhole r.0 × AllClosed r.1)
        (convert_section llvm l name [] (record { mbbs = []; address_to_mbb = [] }))
unfolding convert_section
convert_section-IsWhole llvm l name =
    let m : Machine = record { mbbs = []; address_to_mbb = [] } in
    let End : List TranslatedFunction × Machine → Type 0 = λ r. All IsWhole r.0 × AllClosed r.1 in
    Ensures-bind (λ _. Unit {0}) End (map_error in_elf (get_section_by_name l name)) _
      (Ensures-any _)
      (λ s u.
        Ensures-bind (λ _. Unit {0}) End (map_error in_elf (get_section_contents l s)) _
          (Ensures-any _)
          (λ bytes u.
            Ensures-bind (All IsFresh) End (process_disassembly llvm s.address bytes []) _
              (process-IsFresh llvm s.address bytes)
              (λ fs h. Ensures-map_error in_finalize End (finalize llvm.mia llvm.info fs m) (
                both (λ r. All IsWhole r.0) (λ r. AllClosed r.1) (finalize llvm.mia llvm.info fs m)
                  (finalize-IsWhole llvm.mia llvm.info fs m h)
                  (finalize-AllClosed llvm.mia llvm.info fs m tt)))))

-- ===== src/Mctomir/Decode/Laws.antt =====
-- The instructions of a function are decoded in the order of their addresses, within its bounds.
use llvm_bleach.Base.{
  ℕ, zero, suc, ◌+◌, ◌-◌, ◌^◌, ◌≤◌, ◌<◌, ◌≡◌, refl, inl, inr, true, List, [], ◌∷◌, Option, none,
  some, ok, length, length-drop, drop, ltb, ltb→lt, leb, add64, sub64, arith, Bool-cases,
  Option-cases,
}
use llvm_bleach.Mctomir.Inst.{McInst, TranslatedInst, TranslatedFunction}
use llvm_bleach.Mctomir.Decode.{Decode, next_address, decoded, decode_from, decode_function}

-- The addresses rise, from `lo` on, and stay below `hi`.
abbrev pub Rising : ℕ → ℕ → List TranslatedInst → Type 0
Rising lo hi [] = Unit
Rising lo hi (t ∷ ts) = (lo ≤ t.address) × (t.address < hi) × Rising (suc t.address) hi ts

Rising-mono :
    (lo lo' hi : ℕ) (ts : List TranslatedInst) → lo ≤ lo' → Rising lo' hi ts → Rising lo hi ts
Rising-mono lo lo' hi [] h r = tt
Rising-mono lo lo' hi (t ∷ ts) h r = (omega arith, r.1, r.2)

-- Every instruction is what the decoder reads at its address.
abbrev pub IsDecoded : Decode → ℕ → List ℕ → List TranslatedInst → Type 0
IsDecoded decode section_addr bytes [] = Unit
IsDecoded decode section_addr bytes (t ∷ ts) =
    ((size : ℕ) × (decode (drop (t.address - section_addr) bytes) t.address ≡ some (t.inst, size)))
    × IsDecoded decode section_addr bytes ts

-- What LLVM documents of a decoder: an instruction takes some of the bytes that are given.
abbrev pub TakesBytes : Decode → Type 0
TakesBytes decode =
    (bs : List ℕ) (a : ℕ) (inst : McInst) (size : ℕ)
    → decode bs a ≡ some (inst, size)
    → (0 < size) × (size ≤ length bs)

module _ (decode : Decode) (takes : TakesBytes decode) (section_addr : ℕ) (bytes : List ℕ)
    (fits : section_addr + length bytes < 2 ^ 64) where
  -- A round of the loop, and the address that it goes on from.
  decode_from_step :
      (fuel end addr next : ℕ) (o : Option (McInst × ℕ)) (more : List TranslatedInst)
      → ltb addr end ≡ true
      → sub64 addr section_addr ≡ addr - section_addr
      → leb (addr - section_addr) (length bytes) ≡ true
      → decode (drop (addr - section_addr) bytes) addr ≡ o
      → next_address addr o ≡ next
      → decode_from decode section_addr bytes fuel end next ≡ ok more
      → decode_from decode section_addr bytes (suc fuel) end addr ≡ ok (decoded addr o more)
  unfolding decode_from
  decode_from_step fuel end addr next o more t diff inside e n run =
      rw (t, diff, inside, e, n, run) refl

  record Decodes (fuel end addr : ℕ) : Type 0 where
    insts : List TranslatedInst
    run : decode_from decode section_addr bytes fuel end addr ≡ ok insts
    rising : Rising addr end insts
    read : IsDecoded decode section_addr bytes insts

  decode_from-Decodes :
      (fuel end addr : ℕ)
      → end - addr < fuel
      → section_addr ≤ addr
      → end ≤ section_addr + length bytes
      → Decodes fuel end addr
  unfolding decode_from
  decode_from-Decodes zero end addr h lo hi = absurd (omega arith)
  decode_from-Decodes (suc fuel) end addr h lo hi = elim (Bool-cases (ltb addr end)) [
    | inr ge ↦ record { insts = []; run = rw ge refl; rising = tt; read = tt }
    | inl t ↦
        let lt = ltb→lt addr end t in
        let diff : sub64 addr section_addr ≡ addr - section_addr = omega arith in
        let inside : leb (addr - section_addr) (length bytes) ≡ true = ground arith in
        elim (Option-cases (decode (drop (addr - section_addr) bytes) addr)) [
          | inl e ↦
              let next : add64 addr 1 ≡ addr + 1 = omega arith in
              let r = decode_from-Decodes fuel end (addr + 1) (omega arith) (omega arith) hi in
              record {
                insts = r.insts;
                run =
                    decode_from_step fuel end addr (addr + 1) none r.insts t diff inside e next
                      r.run;
                rising = Rising-mono addr (addr + 1) end r.insts (omega arith) r.rising;
                read = r.read;
              }
          | inr ((inst, size), e) ↦
              let took = takes (drop (addr - section_addr) bytes) addr inst size e in
              let next : add64 addr size ≡ addr + size =
                omega (arith, length-drop (addr - section_addr) bytes) in
              let r = decode_from-Decodes fuel end (addr + size) (omega arith) (omega arith) hi in
              record {
                insts = record { address = addr; inst = inst } ∷ r.insts;
                run =
                    decode_from_step fuel end addr (addr + size) (some (inst, size)) r.insts t diff
                      inside e next r.run;
                rising = (
                  omega arith,
                  lt,
                  Rising-mono (suc addr) (addr + size) end r.insts (omega arith) r.rising,
                );
                read = ((size, e), r.read);
              }
        ]
  ]

  -- A function that lies in its section and has no instructions yet is decoded: the addresses of its
  -- instructions rise and lie between its start and its end, and each instruction is what the decoder
  -- reads at that address.
  pub decode_function_total :
      (mfunc : ℕ) (f : TranslatedFunction)
      → f.insts ≡ []
      → section_addr ≤ f.start
      → f.end ≤ section_addr + length bytes
      → (insts : List TranslatedInst) × (decode_function decode section_addr bytes mfunc f
          ≡ ok (record f { insts = insts; mfunc = mfunc }))
        × Rising f.start f.end insts
        × IsDecoded decode section_addr bytes insts
  unfolding decode_function
  decode_function_total mfunc f fresh lo hi =
      let r = decode_from-Decodes (suc (f.end - f.start)) f.end f.start (omega arith) lo hi in
      (r.insts, rw (r.run, fresh) refl, r.rising, r.read)

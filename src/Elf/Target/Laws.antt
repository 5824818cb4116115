-- ===== src/Elf/Target/Laws.antt =====
-- When the disassembler is ready.
use llvm_bleach.Base.{
  ◌≡◌, refl, ◌⊎◌, inl, inr, Bool, true, false, String, none, some, Result, ok, err,
}
use llvm_bleach.Elf.Loader.{ElfLoader}
use llvm_bleach.Elf.Target.{
  Arch, InitError, Factories, Disassembler, Step, stage, get_triple, get_disasm_features,
  initialize_tail, initialize_features, initialize,
}

-- Every member is made.
pub record IsReady (d : Disassembler) : Type 0 where
  pub target : d.target ≡ true
  pub mri : d.mri ≡ true
  pub mai : d.mai ≡ true
  pub sti : (features : String) × (d.sti ≡ some features)
  pub mii : d.mii ≡ true
  pub dis_asm : d.dis_asm ≡ true
  pub inst_printer : d.inst_printer ≡ true

-- All was made, or the first step that failed is reported and the flag is not set.
abbrev pub Outcome : Step → Type 0
Outcome r =
    ((r.1 ≡ ok tt) × (r.0.initialized ≡ true) × IsReady r.0)
    ⊎ ((e : InitError) × (r.1 ≡ err e) × (r.0.initialized ≡ false))

stage-Outcome :
    (made : Bool) (failed : Disassembler) (e : InitError) (next : Step)
    → failed.initialized ≡ false
    → Outcome next
    → Outcome (stage made failed e next)
stage-Outcome true failed e next h k = k
stage-Outcome false failed e next h k = inr (e, refl, h)

initialize_tail-Outcome :
    (fs : Factories) (arch : Arch) (d : Disassembler) (features : String)
    → d.initialized ≡ false
    → d.target ≡ true
    → d.mri ≡ true
    → d.mai ≡ true
    → d.sti ≡ some features
    → Outcome (initialize_tail fs arch d)
unfolding initialize_tail
initialize_tail-Outcome fs arch d features h a b c s =
    stage-Outcome (fs.instr_info arch) _ InitError.no_instr_info _ h (
      stage-Outcome (fs.disassembler arch) _ InitError.no_disassembler _ h (
        stage-Outcome (fs.printer arch) _ InitError.no_printer _ h (
          inl (
            refl,
            refl,
            record {
              target = a;
              mri = b;
              mai = c;
              sti = (features, s);
              mii = refl;
              dis_asm = refl;
              inst_printer = refl;
            },
          ))))

initialize_features-Outcome :
    (fs : Factories) (l : ElfLoader) (arch : Arch) (d : Disassembler)
    → d.initialized ≡ false
    → d.target ≡ true
    → d.mri ≡ true
    → d.mai ≡ true
    → Outcome (initialize_features fs l arch d)
unfolding initialize_features
initialize_features-Outcome fs l arch d h a b c = go (get_disasm_features fs l)
  where
    go :
        (r : Result InitError String)
        → Outcome (elim r [
          | err e ↦ (d, err InitError.no_features)
          | ok features ↦
              stage
                (fs.subtarget_info arch features)
                (record d { sti = none })
                InitError.no_subtarget_info
                (initialize_tail fs arch (record d { sti = some features }))
        ])
    go (err e) = inr (InitError.no_features, refl, h)
    go (ok features) =
        stage-Outcome (fs.subtarget_info arch features) (record d { sti = none })
          InitError.no_subtarget_info _ h
          (initialize_tail-Outcome fs arch (record d { sti = some features }) features h a b c refl)

-- `initialize` on a disassembler whose flag is not set either makes every member and sets the flag,
-- or reports an error and leaves the flag as it was.
pub initialize-Outcome :
    (fs : Factories) (l : ElfLoader) (d : Disassembler)
    → d.initialized ≡ false
    → Outcome (initialize fs l d)
unfolding initialize
initialize-Outcome fs l d h = rw h (go (get_triple fs l))
  where
    go :
        (r : Result InitError Arch)
        → Outcome (elim r [
          | err e ↦ (d, err e)
          | ok arch ↦
              stage
                (fs.lookup_target arch)
                (record d { target = false })
                InitError.no_target
                (stage
                  (fs.register_info arch)
                  (record d { target = true; mri = false })
                  InitError.no_register_info
                  (stage
                    (fs.asm_info arch)
                    (record d { target = true; mri = true; mai = false })
                    InitError.no_asm_info
                    (initialize_features fs l arch
                      (record d { target = true; mri = true; mai = true }))))
        ])
    go (err e) = inr (e, refl, h)
    go (ok arch) = stage-Outcome (fs.lookup_target arch) _ InitError.no_target _ h (
        stage-Outcome (fs.register_info arch) _ InitError.no_register_info _ h (
          stage-Outcome (fs.asm_info arch) _ InitError.no_asm_info _ h (
            initialize_features-Outcome fs l arch
              (record d { target = true; mri = true; mai = true }) h refl refl refl)))

initialize_ready :
    (fs : Factories) (l : ElfLoader) (d : Disassembler)
    → d.initialized ≡ true
    → initialize fs l d ≡ (d, ok tt)
unfolding initialize
initialize_ready fs l d flag = rw flag refl

-- A first call that succeeds has made every member, and a second call behind it, also with another
-- loader, changes nothing and succeeds.
pub initialize_again :
    (fs : Factories) (l l' : ElfLoader) (d : Disassembler)
    → d.initialized ≡ false
    → (initialize fs l d).1 ≡ ok tt
    → IsReady (initialize fs l d).0
      × (initialize fs l' (initialize fs l d).0 ≡ ((initialize fs l d).0, ok tt))
initialize_again fs l l' d h e = elim (initialize-Outcome fs l d h) [
  | inl (done, flag, ready) ↦ (ready, initialize_ready fs l' (initialize fs l d).0 flag)
  | inr (x, failed, flag) ↦ cc
]

-- ===== src/Backend/Roundtrip.antt =====
-- A call of a function compiled by src/Register.cpp: its frame, and what its caller finds again.
use ntu_csie_complier.Prelude.{
  ℕ, suc, ◌+◌, ◌*◌, ◌-◌, ◌%◌, ◌<◌, Bool, false, some, some-injective, String, str_eq, List, [], ◌∷◌,
  ◌++◌, ◌==◌, length, if◌then◌else◌, ◌≡◌, ◌∙◌, sym, subst, append_assoc, refl, ap, arith, All,
  some-injective, ◌≤◌,
}
use ntu_csie_complier.Semantic.Fold.{int_mod, int_min}
use ntu_csie_complier.Backend.Code.{Label, Instr, v0, indexed, prefixed, fp, sp, ra}
use ntu_csie_complier.Backend.State.{Host}
use ntu_csie_complier.Backend.Registers.{get_callee}
use ntu_csie_complier.Backend.Frame.{main_code, init_code}
use ntu_csie_complier.Backend.Machine.{
  Processor, Machine, set_word, step, run, address_of, add_overflows,
}
use ntu_csie_complier.Backend.Written.{save_lines, load_lines}
use ntu_csie_complier.Backend.Entry.{enter_lines}
use ntu_csie_complier.Backend.Exit.{leave_lines, return_lines}
use ntu_csie_complier.Backend.Opening.{
  pushed, opened, frame_size, run-open_lines_fits, run-open_lines, run-add_fits,
}
use ntu_csie_complier.Backend.Saved.{
  cell, saved, loaded, run-save_lines, run-load_lines, saved-regs, saved-outside, saved-IsHeld,
  IsHeld, IsHeld-vals, slot_below,
}

-- The frame of a function: the words below the caller's stack pointer, for the return address, the
-- caller's frame pointer and the saved registers.
abbrev pub frame_word : ℕ → ℕ → ℕ
frame_word top i = (top + int_mod - 4 * i) % int_mod

frame_words_differ :
    (top i j : ℕ) → top < int_mod → i < j → j < 24 → (frame_word top i == frame_word top j) ≡ false
frame_words_differ top i j b lt le = ground arith

pub cell-frame_word :
    (top k : ℕ)
    → top < int_mod
    → k < 22
    → cell ((top + (int_mod - 4)) % int_mod) k ≡ frame_word top (suc (suc k))
cell-frame_word top k b lt = ground (arith, slot_below k lt)

pub length-get_callee : length get_callee ≡ 22
unfolding get_callee
length-get_callee = refl

module _ (p : Processor) where
  unfoldable pub entered : String → Machine → Machine
  entered name m = saved 0 get_callee (opened p name m)

  run-begin :
      (name : String) (routines : List (Label × Label)) (m : Machine)
      → str_eq name "main" ≡ false
      → run p (Instr.mark (prefixed "_begin_" name) ∷ main_code name routines) m ≡ some m
  unfolding run step
  run-begin name routines m h = ap (λ (b : Bool). run p (if b then init_code routines else []) m) h

  run-enter_lines :
      (name : String) (routines : List (Label × Label)) (m m' : Machine)
      → str_eq name "main" ≡ false
      → run p (enter_lines name routines) m ≡ some m'
      → (add_overflows (m.regs sp) (int_mod - 4) ≡ false) × (entered name m ≡ m')
  unfolding enter_lines entered
  run-enter_lines name routines m m' h e =
      let begin = Instr.mark (prefixed "_begin_" name) ∷ main_code name routines in
      let (fits, e') = run-open_lines p name (save_lines 0 get_callee ++ begin) m m' e in
      (
        fits,
        some-injective _ _ (
            sym (
              run-save_lines p 0 get_callee begin (opened p name m)
              ∙ run-begin name routines (saved 0 get_callee (opened p name m)) h)
            ∙ e'),
      )

  pub enter_lines-runs :
      (name : String) (routines : List (Label × Label)) (m : Machine)
      → str_eq name "main" ≡ false
      → m.regs sp < int_min
      → 8 + frame_size p name m ≤ m.regs sp
      → (m' : Machine) × (run p (enter_lines name routines) m ≡ some m')
        × (m'.regs fp ≡ m.regs sp - 4)
        × (m'.regs sp ≡ m.regs sp - 8 - frame_size p name m)
  unfolding enter_lines entered opened pushed
  enter_lines-runs name routines m h b room =
      let begin = Instr.mark (prefixed "_begin_" name) ∷ main_code name routines in
      let same = saved-regs 0 get_callee (opened p name m) in
      (
        entered name m,
        run-open_lines_fits p name (save_lines 0 get_callee ++ begin) m b room
            ∙ run-save_lines p 0 get_callee begin (opened p name m)
            ∙ run-begin name routines (saved 0 get_callee (opened p name m)) h,
        ap (λ regs. regs fp) same ∙ omega arith,
        ap (λ regs. regs sp) same ∙ omega arith,
      )

  opened-fp :
      (name : String) (m : Machine)
      → (opened p name m).regs fp ≡ (m.regs sp + (int_mod - 4)) % int_mod
  unfolding opened pushed
  opened-fp name m = refl

  -- The code that leaves a function, up to its return.
  unfoldable pub left : Machine → Machine
  left m =
      let l = loaded 0 get_callee m in
      let r = set_word ra (l.mem ((l.regs fp + 4) % int_mod)) l in
      let s = set_word sp ((l.regs fp + 4) % int_mod) r in
      set_word fp (l.mem ((l.regs fp + 0) % int_mod)) s

  pub run-leave_lines :
      (host : Host) (name : String) (data_lines : List Instr) (m : Machine)
      → str_eq name "main" ≡ false
      → add_overflows ((loaded 0 get_callee m).regs fp) 4 ≡ false
      → run p (leave_lines host name ++ data_lines) m ≡ some (left m)
  unfolding leave_lines left run step address_of
  run-leave_lines host name data_lines m h fits =
      let rest =
        Instr.lw ra (indexed 4 fp)
        ∷ Instr.addi sp fp 4
        ∷ Instr.lw fp (indexed 0 fp)
        ∷ return_lines host name in
      ap (λ code. run p code m) (append_assoc (load_lines 0 get_callee) rest data_lines)
      ∙ run-load_lines p 0 get_callee (rest ++ data_lines) m
      ∙ run-add_fits p sp fp 4 (Instr.lw fp (indexed 0 fp) ∷ return_lines host name ++ data_lines)
          (set_word ra
            ((loaded 0 get_callee m).mem (((loaded 0 get_callee m).regs fp + 4) % int_mod))
            (loaded 0 get_callee m))
          fits
      ∙ ap
          (λ (b : Bool).
            run p
              ((if b
                  then Instr.li v0 (host.int_of_double (host.float_of_int 10)) ∷ Instr.syscall ∷ []
                  else Instr.jr_ra ∷ [])
                ++ data_lines)
              (left m))
          h

  opened-callee :
      (name : String) (m : Machine) → All (λ r. (opened p name m).regs r ≡ m.regs r) get_callee
  unfolding opened pushed get_callee
  opened-callee name m = (
    refl,
    (
      refl,
      (
        refl,
        (
          refl,
          (
            refl,
            (
              refl,
              (
                refl,
                (
                  refl,
                  (
                    refl,
                    (
                      refl,
                      (
                        refl,
                        (
                          refl,
                          (
                            refl,
                            (
                              refl,
                              (refl, (refl, (refl, (refl, (refl, (refl, (refl, (refl, tt)))))))),
                            ),
                          ),
                        ),
                      ),
                    ),
                  ),
                ),
              ),
            ),
          ),
        ),
      ),
    ),
  )

  opened-mem : (name : String) (m : Machine) → (opened p name m).mem ≡ (pushed p m).mem
  unfolding opened
  opened-mem name m = refl

  pushed-ra :
      (m : Machine) → m.regs sp < int_mod → (pushed p m).mem (frame_word (m.regs sp) 0) ≡ m.regs ra
  unfolding pushed
  pushed-ra m b = ground arith

  pushed-fp :
      (m : Machine) → m.regs sp < int_mod → (pushed p m).mem (frame_word (m.regs sp) 1) ≡ m.regs fp
  unfolding pushed
  pushed-fp m b = ground arith

  entered-fp :
      (name : String) (m : Machine)
      → (entered name m).regs fp ≡ (m.regs sp + (int_mod - 4)) % int_mod
  unfolding entered
  entered-fp name m =
      ap (λ regs. regs fp) (saved-regs 0 get_callee (opened p name m)) ∙ opened-fp name m

  entered-mem :
      (name : String) (m : Machine) (i : ℕ)
      → m.regs sp < int_mod
      → i < 2
      → (entered name m).mem (frame_word (m.regs sp) i)
        ≡ (pushed p m).mem (frame_word (m.regs sp) i)
  unfolding entered
  entered-mem name m i b lt =
      saved-outside 0 get_callee (opened p name m) (frame_word (m.regs sp) i) (λ k below.
        let k_lt : k < 22 = subst (λ n. k < n) length-get_callee below in
        ap (λ a. frame_word (m.regs sp) i == a)
          (ap (cell ((opened p name m).regs fp)) (omega arith)
            ∙ ap (λ base. cell base k) (opened-fp name m)
            ∙ cell-frame_word (m.regs sp) k b k_lt)
        ∙ frame_words_differ (m.regs sp) i (suc (suc k)) b (omega arith) (omega arith))
      ∙ ap (λ mem. mem (frame_word (m.regs sp) i)) (opened-mem name m)

  entered-IsHeld :
      (name : String) (m : Machine)
      → IsHeld m.regs ((m.regs sp + (int_mod - 4)) % int_mod) 0 get_callee (entered name m).mem
  unfolding entered
  entered-IsHeld name m =
      let h =
        saved-IsHeld 0 get_callee (opened p name m)
          (subst (λ n. n < int_mod) (sym (opened-fp name m)) (omega arith))
          (omega (arith, length-get_callee)) in
      subst (λ base. IsHeld m.regs base 0 get_callee (saved 0 get_callee (opened p name m)).mem)
        (opened-fp name m)
        (IsHeld-vals (opened p name m).regs m.regs ((opened p name m).regs fp) 0 get_callee
          (saved 0 get_callee (opened p name m)).mem (opened-callee name m) h)

  -- Where the code of a function other than `main` up to its body runs without a trap from a machine
  -- whose stack pointer is a word, the frame pointer is then the word below the old stack pointer, where
  -- the old frame pointer is; the return address is above it, and the registers of `getCallee` are below
  -- it.
  pub enter_lines-frame :
      (name : String) (routines : List (Label × Label)) (m m' : Machine)
      → str_eq name "main" ≡ false
      → m.regs sp < int_mod
      → run p (enter_lines name routines) m ≡ some m'
      → (add_overflows (m.regs sp) (int_mod - 4) ≡ false)
        × (m'.regs fp ≡ (m.regs sp + (int_mod - 4)) % int_mod)
        × (m'.mem (frame_word (m.regs sp) 0) ≡ m.regs ra)
        × (m'.mem (frame_word (m.regs sp) 1) ≡ m.regs fp)
        × IsHeld m.regs ((m.regs sp + (int_mod - 4)) % int_mod) 0 get_callee m'.mem
  enter_lines-frame name routines m m' h b e =
      let (fits, same) = run-enter_lines name routines m m' h e in
      let mem_same = λ (i : ℕ). ap (λ n. n.mem (frame_word (m.regs sp) i)) (sym same) in
      (
        fits,
        ap (λ n. n.regs fp) (sym same) ∙ entered-fp name m,
        mem_same 0 ∙ entered-mem name m 0 b (omega arith) ∙ pushed-ra m b,
        mem_same 1 ∙ entered-mem name m 1 b (omega arith) ∙ pushed-fp m b,
        subst (λ n. IsHeld m.regs ((m.regs sp + (int_mod - 4)) % int_mod) 0 get_callee n.mem) same
            (entered-IsHeld name m),
      )

-- ===== src/Backend/Opening.antt =====
-- A run of the code that opens a frame in src/Register.cpp: where it traps, and what it does.
use ntu_csie_complier.Prelude.{
  ℕ, ◌+◌, ◌-◌, ◌%◌, ◌<◌, Bool, true, false, none, some, String, List, ◌∷◌, ◌++◌, ◌≡◌, ◌∙◌, refl, ap,
  arith, ◌≤◌,
}
use ntu_csie_complier.Types.{op_sub}
use ntu_csie_complier.Semantic.Fold.{int_mod, int_min}
use ntu_csie_complier.Backend.Code.{Instr, prefixed, fp, sp, ra, at_label}
use ntu_csie_complier.Backend.Machine.{
  Processor, Machine, set_word, write_word, step, run, address_of, alu, add_overflows, set_result,
  unless, sub_overflows,
}
use ntu_csie_complier.Backend.Written.{open_lines}

push_fits : (top k : ℕ) → top < int_min → k ≤ top → 0 < k → add_overflows top (int_mod - k) ≡ false
push_fits top k b le pos = ground arith

size_fits :
    (top size : ℕ)
    → top < int_min
    → 8 + size ≤ top
    → sub_overflows ((top + (int_mod - 8)) % int_mod) size ≡ false
size_fits top size b room = ground arith

module _ (p : Processor) where
  unfoldable pub pushed : Machine → Machine
  pushed m =
      let m' = write_word ((m.regs sp + 0) % int_mod) (m.regs ra) m in
      write_word ((m.regs sp + (int_mod - 4)) % int_mod) (m.regs fp) m'

  unfoldable pub opened : String → Machine → Machine
  opened name m =
      let f = set_word fp ((m.regs sp + (int_mod - 4)) % int_mod) (pushed m) in
      let s = set_word sp ((m.regs sp + (int_mod - 8)) % int_mod) f in
      let size = s.mem (p.labels (prefixed "_framesize_" name)) in
      let t = set_word 8 size s in
      set_word sp (((m.regs sp + (int_mod - 8)) % int_mod + int_mod - size) % int_mod) t

  -- A run goes on behind an instruction only if that does not trap.
  no_trap :
      (r v : ℕ) (rest : List Instr) (m m' : Machine) (trap : Bool)
      → elim (set_result r m (unless trap v)) [ none ↦ none | some n ↦ run p rest n ] ≡ some m'
      → (trap ≡ false) × (run p rest (set_word r v m) ≡ some m')
  no_trap r v rest m m' true h = ground (arith, h)
  no_trap r v rest m m' false h = (refl, h)

  run-addi :
      (r a v : ℕ) (rest : List Instr) (m m' : Machine)
      → run p (Instr.addi r a v ∷ rest) m ≡ some m'
      → (add_overflows (m.regs a) v ≡ false)
        × (run p rest (set_word r ((m.regs a + v) % int_mod) m) ≡ some m')
  unfolding run step
  run-addi r a v rest m m' h =
      no_trap r ((m.regs a + v) % int_mod) rest m m' (add_overflows (m.regs a) v) h

  pub run-add_fits :
      (r a v : ℕ) (rest : List Instr) (m : Machine)
      → add_overflows (m.regs a) v ≡ false
      → run p (Instr.addi r a v ∷ rest) m ≡ run p rest (set_word r ((m.regs a + v) % int_mod) m)
  unfolding run step
  run-add_fits r a v rest m h =
      ap
        (λ (trap : Bool). elim (set_result r m (unless trap ((m.regs a + v) % int_mod))) [
          | none ↦ none
          | some n ↦ run p rest n
        ])
        h

  run-sub :
      (r a b : ℕ) (rest : List Instr) (m m' : Machine)
      → run p (Instr.binary op_sub false r a b ∷ rest) m ≡ some m'
      → run p rest (set_word r ((m.regs a + int_mod - m.regs b) % int_mod) m) ≡ some m'
  unfolding run step alu
  run-sub r a b rest m m' h =
      (no_trap r ((m.regs a + int_mod - m.regs b) % int_mod) rest m m'
        (sub_overflows (m.regs a) (m.regs b)) h).1

  run-sub_fits :
      (r a b : ℕ) (rest : List Instr) (m : Machine)
      → sub_overflows (m.regs a) (m.regs b) ≡ false
      → run p (Instr.binary op_sub false r a b ∷ rest) m
        ≡ run p rest (set_word r ((m.regs a + int_mod - m.regs b) % int_mod) m)
  unfolding run step alu
  run-sub_fits r a b rest m h =
      ap
        (λ (trap : Bool).
          elim (set_result r m (unless trap ((m.regs a + int_mod - m.regs b) % int_mod))) [
            | none ↦ none
            | some n ↦ run p rest n
          ])
        h

  -- The size that the code of a function reads for its frame.
  abbrev pub frame_size : String → Machine → ℕ
  frame_size name m = (pushed m).mem (p.labels (prefixed "_framesize_" name))

  pub run-open_lines_fits :
      (name : String) (rest : List Instr) (m : Machine)
      → m.regs sp < int_min
      → 8 + frame_size name m ≤ m.regs sp
      → run p (open_lines name ++ rest) m ≡ run p rest (opened name m)
  unfolding run open_lines opened pushed address_of step
  run-open_lines_fits name rest m b room =
      let size = Instr.lw 8 (at_label (prefixed "_framesize_" name)) in
      let s = Instr.binary op_sub false sp sp 8 in
      let f = set_word fp ((m.regs sp + (int_mod - 4)) % int_mod) (pushed m) in
      let g = set_word sp ((m.regs sp + (int_mod - 8)) % int_mod) f in
      let t = set_word 8 (g.mem (p.labels (prefixed "_framesize_" name))) g in
      run-add_fits fp sp (int_mod - 4) (Instr.addi sp sp (int_mod - 8) ∷ size ∷ s ∷ rest) (pushed m)
        (push_fits (m.regs sp) 4 b (omega arith) (omega arith))
      ∙ run-add_fits sp sp (int_mod - 8) (size ∷ s ∷ rest) f
          (push_fits (m.regs sp) 8 b (omega arith) (omega arith))
      ∙ run-sub_fits sp sp 8 rest t (size_fits (m.regs sp) (frame_size name m) b room)

  -- Where the code that opens a frame does not trap, the new frame pointer is no overflow.
  pub run-open_lines :
      (name : String) (rest : List Instr) (m m' : Machine)
      → run p (open_lines name ++ rest) m ≡ some m'
      → (add_overflows (m.regs sp) (int_mod - 4) ≡ false) × (run p rest (opened name m) ≡ some m')
  unfolding run open_lines opened pushed address_of step
  run-open_lines name rest m m' h =
      let size = Instr.lw 8 (at_label (prefixed "_framesize_" name)) in
      let s = Instr.binary op_sub false sp sp 8 in
      let f = set_word fp ((m.regs sp + (int_mod - 4)) % int_mod) (pushed m) in
      let g = set_word sp ((m.regs sp + (int_mod - 8)) % int_mod) f in
      let t = set_word 8 (g.mem (p.labels (prefixed "_framesize_" name))) g in
      let (a, h1) =
        run-addi fp sp (int_mod - 4) (Instr.addi sp sp (int_mod - 8) ∷ size ∷ s ∷ rest) (pushed m)
          m' h in
      let (b, h2) = run-addi sp sp (int_mod - 8) (size ∷ s ∷ rest) f m' h1 in
      (a, run-sub sp sp 8 rest t m' h2)

-- ===== src/Backend/Return.antt =====
-- A call of a compiled function from its first instruction to its return (src/Register.cpp).
use ntu_csie_complier.Prelude.{
  has, ℕ, suc, ◌+◌, ◌-◌, ◌%◌, ◌<◌, Bool, true, false, some, some-injective, String, str_eq, List,
  [], ◌∷◌, ◌++◌, ◌==◌, Bool-cases, inl, inr, if◌then◌else◌, ◌≡◌, ◌∙◌, sym, subst, refl, ap, arith,
}
use mathlib.Core.List.{append_cancel_left}
use ntu_csie_complier.Semantic.Fold.{int_mod}
use ntu_csie_complier.Backend.Code.{Label, Instr, prefixed, fp, sp, ra}
use ntu_csie_complier.Backend.State.{GenState, Host}
use ntu_csie_complier.Backend.Registers.{get_callee}
use ntu_csie_complier.Backend.Frame.{ArSystem, prologue, epilogue}
use ntu_csie_complier.Backend.Allocation.{Typed}
use ntu_csie_complier.Backend.Machine.{set_at, Processor, Machine, run, add_overflows}
use ntu_csie_complier.Backend.Written.{IsFresh}
use ntu_csie_complier.Backend.Entry.{enter_lines, prologue-enter_lines}
use ntu_csie_complier.Backend.Exit.{leave_lines, epilogue-leave_lines}
use ntu_csie_complier.Backend.Saved.{loaded, IsHeld, IsHeld-agree, loaded-mem, loaded-regs, cell}
use ntu_csie_complier.Backend.Roundtrip.{
  frame_word, left, run-leave_lines, enter_lines-frame, cell-frame_word, length-get_callee,
}

-- What the caller finds again: its stack and frame pointers, the address to return to, and the
-- registers of `getCallee`.
pub record Restored (m m' : Machine) : Type 0 where
  pub same_sp : m'.regs sp ≡ m.regs sp
  pub same_fp : m'.regs fp ≡ m.regs fp
  pub same_ra : m'.regs ra ≡ m.regs ra
  pub same_callee : (r : ℕ) → has r get_callee ≡ true → m'.regs r ≡ m.regs r

has-fp : has fp get_callee ≡ false
unfolding get_callee
has-fp = refl

has-sp : has sp get_callee ≡ false
unfolding get_callee
has-sp = refl

has-ra : has ra get_callee ≡ false
unfolding get_callee
has-ra = refl

not_held : (k r : ℕ) (v : List ℕ) → has k v ≡ false → has r v ≡ true → (r == k) ≡ false
not_held k r v hk hr = elim (Bool-cases (r == k)) [
  | inl e ↦
      let e' : r ≡ k = ground arith in
      let hk' : has r v ≡ false = subst (λ j. has j v ≡ false) (sym e') hk in
      ground (arith, hr, hk')
  | inr e ↦ e
]

not_updated :
    (f : ℕ → ℕ) (x y z r : ℕ)
    → (r == fp) ≡ false
    → (r == sp) ≡ false
    → (r == ra) ≡ false
    → set_at (set_at (set_at f ra x) sp y) fp z r ≡ f r
not_updated f x y z r hf hs ha = ground arith

module _ (p : Processor) (m m2 : Machine) where
  abbrev bottom : ℕ
  bottom = (m.regs sp + (int_mod - 4)) % int_mod

  loaded-fp :
      m2.regs fp ≡ bottom
      → IsHeld m.regs bottom 0 get_callee m2.mem
      → (loaded 0 get_callee m2).regs fp ≡ bottom
  loaded-fp e h =
      loaded-regs m.regs bottom 0 get_callee m2 fp e has-fp h
      ∙ ap (λ (b : Bool). if b then m.regs fp else m2.regs fp) has-fp
      ∙ e

  left-Restored :
      m.regs sp < int_mod
      → m2.regs fp ≡ bottom
      → m2.mem (frame_word (m.regs sp) 0) ≡ m.regs ra
      → m2.mem (frame_word (m.regs sp) 1) ≡ m.regs fp
      → IsHeld m.regs bottom 0 get_callee m2.mem
      → Restored m (left p m2)
  unfolding left
  left-Restored b e era efp h =
      let l = loaded 0 get_callee m2 in
      let lfp = loaded-fp e h in
      let lmem = loaded-mem 0 get_callee m2 in
      record {
        same_sp = ap (λ n. (n + 4) % int_mod) lfp ∙ omega arith;
        same_fp =
            ap (λ n. l.mem ((n + 0) % int_mod)) lfp
            ∙ ap (λ mem. mem ((bottom + 0) % int_mod)) lmem
            ∙ ap m2.mem (omega arith)
            ∙ efp;
        same_ra =
            ap (λ n. l.mem ((n + 4) % int_mod)) lfp
            ∙ ap (λ mem. mem ((bottom + 4) % int_mod)) lmem
            ∙ ap m2.mem (omega arith)
            ∙ era;
        same_callee = λ r hr.
            not_updated l.regs (l.mem ((l.regs fp + 4) % int_mod)) ((l.regs fp + 4) % int_mod)
              (l.mem ((l.regs fp + 0) % int_mod)) r (not_held fp r get_callee has-fp hr)
              (not_held sp r get_callee has-sp hr) (not_held ra r get_callee has-ra hr)
            ∙ loaded-regs m.regs bottom 0 get_callee m2 r e has-fp h
            ∙ ap (λ (b : Bool). if b then m.regs r else m2.regs r) hr;
      }

-- Where the frame pointer was no overflow, neither is the stack pointer when it is taken back.
no_overflow :
    (top : ℕ)
    → top < int_mod
    → add_overflows top (int_mod - 4) ≡ false
    → add_overflows ((top + (int_mod - 4)) % int_mod) 4 ≡ false
no_overflow top b h = ground (arith, h)

module _ (p : Processor) (m m1 m2 : Machine) where
  -- The body has kept the frame: its pointer, and the 24 words of it.
  abbrev pub KeepsFrame : Type 0
  KeepsFrame =
      (m2.regs fp ≡ m1.regs fp)
      × ((i : ℕ) → i < 24 → m2.mem (frame_word (m.regs sp) i) ≡ m1.mem (frame_word (m.regs sp) i))

  left-lines-Restored :
      (host : Host) (name : String) (routines : List (Label × Label)) (data_lines : List Instr)
      → str_eq name "main" ≡ false
      → m.regs sp < int_mod
      → run p (enter_lines name routines) m ≡ some m1
      → KeepsFrame
      → (m3 : Machine) × (run p (leave_lines host name ++ data_lines) m2 ≡ some m3) × Restored m m3
  left-lines-Restored host name routines data_lines h b e keeps =
      let (fits, nfp, nra, nold, held) = enter_lines-frame p name routines m m1 h b e in
      let top = m.regs sp in
      let mem_same = keeps.1 in
      let base = keeps.0 ∙ nfp in
      let kept =
        IsHeld-agree m.regs (bottom p m m2) 0 get_callee m1.mem m2.mem
          (λ k lt.
            let k_lt : k < 22 = subst (λ n. k < n) length-get_callee lt in
            subst (λ a. m2.mem a ≡ m1.mem a)
              (sym (ap (cell (bottom p m m2)) (omega arith) ∙ cell-frame_word top k b k_lt))
              (mem_same (suc (suc k)) (omega arith)))
          held in
      (
        left p m2,
        run-leave_lines p host name data_lines m2 h (
            ap (λ n. add_overflows n 4) (loaded-fp p m m2 base kept)
            ∙ no_overflow (m.regs sp) b fits),
        left-Restored p m m2 b base (mem_same 0 (omega arith) ∙ nra)
            (mem_same 1 (omega arith) ∙ nold) kept,
      )

module _ (p : Processor) (host : Host) where
  -- A function other than `main` is compiled from fresh registers by `prologue` and, in a state with
  -- registers of the right kinds, by `epilogue`. Its code before the body runs from a machine whose
  -- stack pointer is a word, and its body keeps the frame. Then the code behind the body runs to its
  -- return, where the stack pointer, the frame pointer, the return address and the registers of
  -- `getCallee` are as before the call.
  pub epilogue-prologue :
      (name : String) (a a' b b' : ArSystem) (s t u w : GenState)
      → (enter leave : List Instr) (m m1 m2 : Machine) → str_eq name "main" ≡ false
      → IsFresh s
      → prologue host name a s ≡ some (a', t)
      → t.output ≡ s.output ++ enter
      → b.func_name ≡ name
      → Typed u
      → epilogue host b u ≡ some (b', w)
      → w.output ≡ u.output ++ leave
      → m.regs sp < int_mod
      → run p enter m ≡ some m1
      → KeepsFrame p m m1 m2
      → (m3 : Machine) × (run p leave m2 ≡ some m3) × Restored m m3
  epilogue-prologue name a a' b b' s t u w enter leave m m1 m2 h fresh e oe eb typed e' ol words r
        keeps =
      let (t0, e0, p0) = prologue-enter_lines host name a s fresh in
      let same_t : t0 ≡ t = ap (λ x. x.1) (some-injective _ _ (sym e0 ∙ e)) in
      let (w0, f0, q0, z0) = epilogue-leave_lines host b u typed in
      let same_w : w0 ≡ w = ap (λ x. x.1) (some-injective _ _ (sym f0 ∙ e')) in
      let tail =
        Instr.data_segment ∷ Instr.word (prefixed "_framesize_" b.func_name) b.total_offset ∷ [] in
      let is_enter : enter_lines name a.init_routine ≡ enter =
        append_cancel_left s.output _ _ (sym p0.output_is ∙ ap (λ x. x.output) same_t ∙ oe) in
      let is_leave : leave_lines host name ++ tail ≡ leave =
        ap (λ n. leave_lines host n ++ tail) (sym eb)
        ∙ append_cancel_left u.output _ _ (sym q0 ∙ ap (λ x. x.output) same_w ∙ ol) in
      let (m3, run3, ok) =
        left-lines-Restored p m m1 m2 host name a.init_routine tail h words
          (ap (λ code. run p code m) is_enter ∙ r) keeps in
      (m3, sym (ap (λ code. run p code m2) is_leave) ∙ run3, ok)

-- ===== src/Backend/Tags/Frames.antt =====
-- The labels in the code at the start and the end of a function (`prologue` and `epilogue` of
-- src/Register.cpp).
use ntu_csie_complier.Prelude.{
  ℕ, suc, ◌+◌, ◌*◌, length, Bool, true, false, String, str_eq, List, [], ◌∷◌, if◌then◌else◌, ◌≡◌,
  refl, ap, ◌∙◌, arith, ◌-◌,
}
use ntu_csie_complier.Effect.Post.{Post, returns, bind}
use ntu_csie_complier.Types.{int_type, op_add, op_sub}
use ntu_csie_complier.Semantic.Fold.{int_mod}
use ntu_csie_complier.Backend.Code.{
  Label, named, prefixed, Instr, reg_address, label_address, plus, minus, ra, fp, sp,
}
use ntu_csie_complier.Backend.State.{GenState, Host, emit}
use ntu_csie_complier.Backend.Registers.{get_callee, clear_registers, registers}
use ntu_csie_complier.Backend.Operations.{emits}
use ntu_csie_complier.Backend.Syscalls.{exit}
use ntu_csie_complier.Backend.Frame.{
  ArSystem, save_slot, save_callee, load_callee, init_code, main_code, open_frame, prologue_code,
  prologue, leave, close_frame, epilogue, end_tag, clear_ar,
}
use ntu_csie_complier.Backend.Labels.{defined, used, total, total-append}
use ntu_csie_complier.Backend.Written.{emits-output}
use ntu_csie_complier.Backend.Quiet.{
  Quiet, Quiet-refl, Quiet-trans, emit-Quiet, Grows, Grows-trans, definitions, uses,
}
use ntu_csie_complier.Backend.Quiet.Steps.{save_to-Quiet, clear_reg_record-Quiet, clear_all-Quiet}
use ntu_csie_complier.Backend.Quiet.Rules.{
  Silent, pure-Silent, modify-Silent, ◌▹◌, choice-Silent, emit-Silent,
}
use ntu_csie_complier.Backend.Quiet.Loads.{load_address-Silent, gen_syscall-Silent}
use ntu_csie_complier.Backend.Quiet.Operations.{get_reg-Silent, operand-Silent, operand_int-Silent}
use ntu_csie_complier.Backend.Tags.{ends, starts}

-- The routines that `main` goes to, and whose ends it defines.
abbrev pub routines_of : String → List (Label × Label) → List (Label × Label)
routines_of name routines = if str_eq name "main" then routines else []

-- The `ArSystem` behind `prologue`.
abbrev pub entered_ar : String → ArSystem → ArSystem
entered_ar name a = record a {
  func_name = name;
  init_routine = if str_eq name "main" then [] else a.init_routine;
  total_offset = 4 * length get_callee;
}

init_code-ends : (l : Label) (v : List (Label × Label)) → total (defined l) (init_code v) ≡ ends l v
unfolding ends total
init_code-ends l [] = refl
init_code-ends l ((start, end) ∷ v) = let h = init_code-ends l v in omega arith

init_code-starts :
    (l : Label) (v : List (Label × Label)) → total (used l) (init_code v) ≡ starts l v
unfolding starts total
init_code-starts l [] = refl
init_code-starts l ((start, end) ∷ v) = let h = init_code-starts l v in omega arith

main_code-routines :
    (name : String) (v : List (Label × Label)) → main_code name v ≡ init_code (routines_of name v)
main_code-routines name v = at_name (str_eq name "main")
  where
    at_name : (b : Bool) → (if b then init_code v else []) ≡ init_code (if b then v else [])
    at_name true = refl
    at_name false = refl

module _ (l : Label) where
  -- The code is appended to by code that defines some labels and goes to some.
  pub record Entered (v : List (Label × Label)) (s t : GenState) : Type 0 where
    pub grows : Grows s t
    pub adds_ends : definitions l t ≡ definitions l s + ends l v
    pub adds_starts : uses l t ≡ uses l s + starts l v

  emits-types :
      (code : List Instr) (s : GenState) (r : ℕ)
      → ((emits code s).regs r).reg_type ≡ (s.regs r).reg_type
  unfolding emit
  emits-types [] s r = refl
  emits-types (x ∷ code) s r = emits-types code (emit x s) r

  routines-Entered :
      (name : String) (v : List (Label × Label)) (s : GenState)
      → Entered (routines_of name v) s (emits (main_code name v) s)
  routines-Entered name v s =
      let c = main_code name v in
      let o = emits-output c s in
      let e = ap (total (defined l)) o ∙ total-append (defined l) s.output c in
      let e' = ap (total (used l)) o ∙ total-append (used l) s.output c in
      let m = main_code-routines name v in
      let d = ap (total (defined l)) m ∙ init_code-ends l (routines_of name v) in
      let d' = ap (total (used l)) m ∙ init_code-starts l (routines_of name v) in
      record {
        grows = record { code = c; output_is = o; same_types = emits-types c s };
        adds_ends = e ∙ ap (λ n. definitions l s + n) d;
        adds_starts = e' ∙ ap (λ n. uses l s + n) d';
      }

  save_callee-Quiet : (k : ℕ) (v : List ℕ) (s : GenState) → Quiet l s (save_callee k v s)
  unfolding save_callee
  save_callee-Quiet k [] s = Quiet-refl l s
  save_callee-Quiet k (r ∷ v) s =
      Quiet-trans l _ _ _ (save_to-Quiet l r (save_slot k) s) (save_callee-Quiet (suc k) v _)

  module _ (host : Host) where
    open_frame-Silent : (name : String) → Silent l (open_frame host name)
    unfolding open_frame
    open_frame-Silent name = emit-Silent l Instr.text (refl, refl) ▹ λ _.
        emit-Silent l (Instr.mark (named name)) (refl, refl) ▹ λ _.
        modify-Silent l _ (save_to-Quiet l ra (reg_address sp)) ▹ λ _.
        modify-Silent l _ (save_to-Quiet l fp (minus (reg_address sp) 4)) ▹ λ _.
        operand_int-Silent l host fp op_add sp (int_mod - 4) ▹ λ _.
        operand_int-Silent l host sp op_add sp (int_mod - 8) ▹ λ _.
        get_reg-Silent l host int_type true ▹ λ tmp.
        load_address-Silent l host tmp (label_address (prefixed "_framesize_" name)) ▹ λ _.
        operand-Silent l host sp op_sub sp tmp

    prologue_code-Entered :
        (name : String) (v : List (Label × Label)) (s : GenState)
        → Post (λ (x : Unit {0}) t. Entered (routines_of name v) s t) (prologue_code host name v s)
    unfolding prologue_code
    prologue_code-Entered name v s =
        bind (open_frame host name) _ s (open_frame-Silent name s) (λ a t q.
          let mark = Instr.mark (prefixed "_begin_" name) in
          let t1 = save_callee 0 get_callee t in
          let t2 = emit mark t1 in
          let q2 = Quiet-trans l _ _ _ q (
            Quiet-trans l _ _ _ (save_callee-Quiet 0 get_callee t)
              (emit-Quiet l mark t1 (refl, refl))) in
          let p = routines-Entered name v t2 in
          let q3 = clear_reg_record-Quiet l (emits (main_code name v) t2) in
          returns (record {
            grows = Grows-trans q2.grows (Grows-trans p.grows q3.grows);
            adds_ends =
                q3.same_definitions
                ∙ p.adds_ends
                ∙ ap (λ n. n + ends l (routines_of name v)) q2.same_definitions;
            adds_starts =
                q3.same_uses
                ∙ p.adds_starts
                ∙ ap (λ n. n + starts l (routines_of name v)) q2.same_uses;
          }))

    load_callee-Silent : (k : ℕ) (v : List ℕ) → Silent l (load_callee host k v)
    unfolding load_callee
    load_callee-Silent k [] = pure-Silent l tt
    load_callee-Silent k (r ∷ v) =
        load_address-Silent l host r (save_slot k) ▹ λ _. load_callee-Silent (suc k) v

    leave-Silent : (a : ArSystem) → Silent l (leave host a)
    unfolding leave
    leave-Silent a =
        choice-Silent l (str_eq a.func_name "main") _ _ (gen_syscall-Silent l host exit ra)
          (emit-Silent l Instr.jr_ra (refl, refl))

    close_frame-Silent : (a : ArSystem) → Silent l (close_frame host a)
    unfolding close_frame
    close_frame-Silent a = emit-Silent l (Instr.mark (end_tag a)) (refl, refl) ▹ λ _.
        load_callee-Silent 0 get_callee ▹ λ _.
        load_address-Silent l host ra (plus (reg_address fp) 4) ▹ λ _.
        operand_int-Silent l host sp op_add fp 4 ▹ λ _.
        load_address-Silent l host fp (reg_address fp) ▹ λ _. leave-Silent a

    pub prologue-Entered :
        (name : String) (a : ArSystem) (s : GenState)
        → Post
            (λ b t. Entered (routines_of name a.init_routine) s t × (b ≡ entered_ar name a))
            (prologue host name a s)
    unfolding prologue
    prologue-Entered name a s =
        bind (prologue_code host name a.init_routine) _ s
          (prologue_code-Entered name a.init_routine s) (λ x t p. returns (p, refl))

    pub epilogue-Quiet :
        (a : ArSystem) (s : GenState)
        → Post (λ b t. Quiet l s t × (b ≡ clear_ar a)) (epilogue host a s)
    unfolding epilogue clear_registers
    epilogue-Quiet a s =
        let word = Instr.word (prefixed "_framesize_" a.func_name) a.total_offset in
        bind (close_frame host a) _ s (close_frame-Silent a s) (λ x t q.
          let t1 = emit Instr.data_segment t in
          returns (
            Quiet-trans l _ _ _ q (
                Quiet-trans l _ _ _ (emit-Quiet l Instr.data_segment t (refl, refl)) (
                  Quiet-trans l _ _ _ (emit-Quiet l word t1 (refl, refl))
                    (clear_all-Quiet l registers (emit word t1)))),
            refl,
          ))

-- ===== src/Backend/Exit.antt =====
-- What `epilogue` of src/Register.cpp writes, and how it leaves the registers.
use ntu_csie_complier.Prelude.{
  ℕ, zero, suc, ◌+◌, ◌<◌, ◌≤◌, Bool, true, false, Option, none, some, String, str_eq, List, [], ◌∷◌,
  ◌++◌, ◌==◌, Bool-cases, if◌then◌else◌, ◌≡◌, ◌∙◌, subst, refl, ap, inl, inr, arith,
}
use ntu_csie_complier.Effect.{◌>>◌, modify}
use ntu_csie_complier.Types.{op_add}
use ntu_csie_complier.Backend.Code.{
  Instr, reg_address, indexed, prefixed, minus, plus, ra, fp, sp, v0,
}
use ntu_csie_complier.Backend.State.{GenState, Host, emit, cleared, clear}
use ntu_csie_complier.Backend.Registers.{
  new_register, type_of_reg, get_callee, clear_all, clear_registers, registers, count_up,
}
use ntu_csie_complier.Backend.Operations.{
  operand_int, set_modified, load_int, load_double, set_dirty, constant_load,
}
use ntu_csie_complier.Backend.Loads.{load_address}
use ntu_csie_complier.Backend.Syscalls.{gen_syscall, exit}
use ntu_csie_complier.Backend.Frame.{ArSystem, close_frame, epilogue, leave, clear_ar}
use ntu_csie_complier.Backend.Allocation.{Typed}
use ntu_csie_complier.Backend.Evict.{put_same, put_other}
use ntu_csie_complier.Backend.Written.{
  Adds-trans, Writes, wrote, then-Writes, load_lines, load_callee-Writes, load_word-Writes,
  emit-Adds, clear-Adds, set_reg-Adds,
}
use ntu_csie_complier.Backend.Entry.{clear_all-Adds, result_of, and_nothing}

abbrev FreshAt : ℕ → GenState → Type 0
FreshAt k s = s.regs k ≡ new_register (type_of_reg k)

clear_itself : (r : ℕ) (s : GenState) → Typed s → FreshAt r (clear r s)
unfolding clear
clear_itself r s typed = put_same s.regs r (cleared (s.regs r)) ∙ ap new_register (typed r)

clear_other : (r k : ℕ) (s : GenState) → (k == r) ≡ false → (clear r s).regs k ≡ s.regs k
unfolding clear
clear_other r k s e = put_other s.regs r (cleared (s.regs r)) k e

clear_fresh : (r k : ℕ) (s : GenState) → Typed s → FreshAt k s → FreshAt k (clear r s)
clear_fresh r k s typed f = elim (Bool-cases (k == r)) [
  | inl e ↦
      let e' : r ≡ k = ground arith in
      subst (λ j. FreshAt j (clear r s)) e' (clear_itself r s typed)
  | inr e ↦ clear_other r k s e ∙ f
]

clear_all_fresh :
    (v : List ℕ) (k : ℕ) (s : GenState) → Typed s → FreshAt k s → FreshAt k (clear_all v s)
unfolding clear_all
clear_all_fresh [] k s typed f = f
clear_all_fresh (r ∷ v) k s typed f =
    clear_all_fresh v k (clear r s) (clear-Adds r s typed).typed (clear_fresh r k s typed f)

nothing_in : (first k : ℕ) → first ≤ k → k < first + 0 → ⊥
nothing_in first k le lt = omega arith

clear_count :
    (first n k : ℕ) (s : GenState)
    → first ≤ k
    → k < first + n
    → Typed s
    → FreshAt k (clear_all (count_up first n) s)
unfolding clear_all count_up
clear_count first zero k s le lt typed = elim (nothing_in first k le lt) [ ]
clear_count first (suc n) k s le lt typed =
    let typed' = (clear-Adds first s typed).typed in
    elim (Bool-cases (k == first)) [
      | inl e ↦
          let e' : first ≡ k = ground arith in
          subst (λ j. FreshAt j (clear_all (count_up (suc first) n) (clear first s))) e'
            (clear_all_fresh (count_up (suc first) n) first (clear first s) typed'
              (clear_itself first s typed))
      | inr e ↦ clear_count (suc first) n k (clear first s) (ground arith) (omega arith) typed'
    ]

module _ (host : Host) where
  -- The code that leaves `main` or returns to the caller.
  abbrev pub return_lines : String → List Instr
  return_lines name =
      if str_eq name "main"
      then Instr.li v0 (host.int_of_double (host.float_of_int 10)) ∷ Instr.syscall ∷ []
      else Instr.jr_ra ∷ []

  -- The code behind the body of a function.
  unfoldable pub leave_lines : String → List Instr
  leave_lines name =
      Instr.mark (prefixed "_end_" name) ∷ load_lines 0 get_callee
      ++ Instr.lw ra (indexed 4 fp)
        ∷ Instr.addi sp fp 4
        ∷ Instr.lw fp (indexed 0 fp)
        ∷ return_lines name

  exit-Writes :
      (s : GenState)
      → Typed s
      → Writes
          (Instr.li v0 (host.int_of_double (host.float_of_int 10)) ∷ Instr.syscall ∷ [])
          s
          (gen_syscall host exit ra s)
  unfolding gen_syscall load_int load_double set_dirty
  exit-Writes s typed =
      let d = host.float_of_int 10 in
      let line = constant_load host (s.regs v0).reg_type v0 d in
      let p = emit-Adds line s typed in
      let q =
        set_reg-Adds v0 (record ((emit line s).regs v0) { dirty = true }) (emit line s) refl
          p.typed in
      let r = emit-Adds Instr.syscall _ q.typed in
      subst
        (λ t.
          Writes (constant_load host t v0 d ∷ Instr.syscall ∷ []) s (gen_syscall host exit ra s))
        (typed v0) (wrote (Adds-trans p (Adds-trans q r)))

  leave-Writes :
      (a : ArSystem) (s : GenState) → Typed s → Writes (return_lines a.func_name) s (leave host a s)
  unfolding leave
  leave-Writes a s typed = leave_at (str_eq a.func_name "main")
    where
      leave_at :
          (b : Bool)
          → Writes
              (if b
                then Instr.li v0 (host.int_of_double (host.float_of_int 10)) ∷ Instr.syscall ∷ []
                else Instr.jr_ra ∷ [])
              s
              ((if b then gen_syscall host exit ra else modify (emit Instr.jr_ra)) s)
      leave_at true = exit-Writes s typed
      leave_at false = wrote (emit-Adds Instr.jr_ra s typed)

  -- The end of `epilogue`'s code behind the saved registers.
  restore-Writes :
      (a : ArSystem) (s : GenState)
      → Typed s
      → Writes
          (Instr.lw ra (indexed 4 fp)
            ∷ Instr.addi sp fp 4
            ∷ Instr.lw fp (indexed 0 fp)
            ∷ return_lines a.func_name)
          s
          ((do
            load_address host ra (plus (reg_address fp) 4)
            operand_int host sp op_add fp 4
            load_address host fp (reg_address fp)
            leave host a)
            s)
  unfolding plus minus operand_int set_modified
  restore-Writes a s typed =
      then-Writes _ (load_word-Writes host ra (indexed 4 fp) (some fp) 4 false s typed) (λ t typed.
        let line = Instr.addi sp fp 4 in
        let p = emit-Adds line t typed in
        let q =
          set_reg-Adds sp (record ((emit line t).regs sp) { modified = true }) (emit line t) refl
            p.typed in
        then-Writes _ (wrote (Adds-trans p q)) (λ u typed.
          then-Writes (leave host a)
            (load_word-Writes host fp (indexed 0 fp) (some fp) 0 false u typed) (leave-Writes a)))

  close_frame-Writes :
      (a : ArSystem) (s : GenState)
      → Typed s
      → Writes (leave_lines a.func_name) s (close_frame host a s)
  unfolding close_frame leave_lines
  close_frame-Writes a s typed =
      then-Writes _ (wrote (emit-Adds (Instr.mark (prefixed "_end_" a.func_name)) s typed))
        (λ t typed. then-Writes _ (load_callee-Writes host 0 get_callee t typed) (restore-Writes a))

  -- Where each register holds values of its kind, `epilogue` has a result. It appends `leave_lines` to
  -- the output: the saved registers, the return address and the frame of the caller are loaded again,
  -- and `main` exits where other functions return. The size of the frame follows as a word, and all
  -- registers are as new.
  pub epilogue-leave_lines :
      (a : ArSystem) (s : GenState)
      → Typed s
      → (t : GenState) × (epilogue host a s ≡ some (clear_ar a, t))
        × (t.output
            ≡ s.output
              ++ (leave_lines a.func_name
                  ++ Instr.data_segment
                    ∷ Instr.word (prefixed "_framesize_" a.func_name) a.total_offset
                    ∷ []))
        × ((r : ℕ) → r < 54 → t.regs r ≡ new_register (type_of_reg r))
  unfolding epilogue clear_registers registers
  epilogue-leave_lines a s typed =
      let (t, e, p) = result_of (close_frame-Writes a s typed) in
      let q = emit-Adds Instr.data_segment t p.typed in
      let segment = emit Instr.data_segment t in
      let size = Instr.word (prefixed "_framesize_" a.func_name) a.total_offset in
      let r = emit-Adds size segment q.typed in
      let c = clear_all-Adds (count_up 0 54) (emit size segment) r.typed in
      (
        clear_all (count_up 0 54) (emit size segment),
        ap
            (λ (r : Option (Unit {0} × GenState)). elim r as (λ _. Option (ArSystem × GenState)) [
              | none ↦ none
              | some (u, t) ↦
                  some
                    (clear_ar a, clear_all (count_up 0 54) (emit size (emit Instr.data_segment t)))
            ])
            e,
        (Adds-trans p (Adds-trans q (and_nothing r c))).output_is,
        λ k lt. clear_count 0 54 k (emit size segment) (omega arith) lt r.typed,
      )

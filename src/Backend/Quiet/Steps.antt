-- ===== src/Backend/Quiet/Steps.antt =====
-- The steps of src/Register.cpp that always have a result.
use ntu_csie_complier.Backend.Quiet.{
  Quiet, Quiet-refl, Quiet-trans, emit-Quiet, set_reg-Quiet, Quiet-if, IsPlain, unchanged-Quiet,
}
use ntu_csie_complier.Prelude.{ℕ, Bool, true, false, List, [], ◌∷◌, if◌then◌else◌, refl, subst, All}
use ntu_csie_complier.Types.{DataType}
use ntu_csie_complier.Backend.Vacant.{Given, as_clean, as_unmodified, spilled}
use ntu_csie_complier.Backend.Evict.{evict, clear-save}
use ntu_csie_complier.Backend.Code.{Label, Address, Instr}
use ntu_csie_complier.Backend.State.{
  GenState, Host, emit, cleared, clear, store, save_to, save, is_float, is_variable_modified,
  set_flags, set_target_node, set_target_address,
}
use ntu_csie_complier.Backend.Registers.{
  save_all, save_and_clear, clear_all, clear_reg_record, registers, float_caller, caller_reg, lock,
}
use ntu_csie_complier.Backend.Operations.{
  set_dirty, set_modified, set_both, clear_volatile, load_double, load_int, constant_load, emits,
}

module _ (l : Label) where
  store-IsPlain : (r : ℕ) (t : DataType) (a : Address) → IsPlain l (store r t a)
  store-IsPlain r t a =
      elim (is_float t)
        as (λ b. IsPlain l (if b then Instr.s_s r a.addr_name else Instr.sw r a.addr_name)) [
          | true ↦ (refl, refl)
          | false ↦ (refl, refl)
        ]

  pub clear-Quiet : (r : ℕ) (s : GenState) → Quiet l s (clear r s)
  unfolding clear
  clear-Quiet r s = set_reg-Quiet l r (cleared (s.regs r)) s refl

  pub save_to-Quiet : (r : ℕ) (a : Address) (s : GenState) → Quiet l s (save_to r a s)
  unfolding save_to
  save_to-Quiet r a s =
      let s1 = emit (store r (s.regs r).reg_type a) s in
      let p = emit-Quiet l (store r (s.regs r).reg_type a) s (store-IsPlain r _ a) in
      Quiet-if l (s.regs r).target_addr.is_volatile (Quiet-trans l _ _ _ p (clear-Quiet r s1)) p

  set_flags-Quiet : (d m : Bool) (r : ℕ) (s : GenState) → Quiet l s (set_flags d m r s)
  set_flags-Quiet d m r s = set_reg-Quiet l r (record (s.regs r) { dirty = d; modified = m }) s refl

  pub save-Quiet : (r : ℕ) (s : GenState) → Quiet l s (save r s)
  unfolding save
  save-Quiet r s =
      Quiet-if l (is_variable_modified (s.regs r))
        (Quiet-trans l _ _ _ (save_to-Quiet r (s.regs r).target_addr s)
          (set_flags-Quiet false false r _))
        (set_flags-Quiet false (s.regs r).modified r s)

  pub set_target_node-Quiet : (r n : ℕ) (s : GenState) → Quiet l s (set_target_node r n s)
  unfolding set_target_node
  set_target_node-Quiet r n s =
      let s1 = if (s.regs r).target_is_address then save_to r (s.regs r).target_addr s else s in
      Quiet-trans l s s1 _
        (Quiet-if l (s.regs r).target_is_address (save_to-Quiet r (s.regs r).target_addr s)
          (Quiet-refl l s))
        (set_reg-Quiet l r (record (s1.regs r) { target_is_address = false; target = _ }) s1 refl)

  pub set_target_address-Quiet :
      (r : ℕ) (a : Address) (s : GenState) → Quiet l s (set_target_address r a s)
  unfolding set_target_address
  set_target_address-Quiet r a s =
      set_reg-Quiet l r (record (s.regs r) { target_is_address = true; target_addr = a }) s refl

  pub set_dirty-Quiet : (r : ℕ) (s : GenState) → Quiet l s (set_dirty r s)
  unfolding set_dirty
  set_dirty-Quiet r s = set_flags-Quiet true (s.regs r).modified r s

  pub set_modified-Quiet : (r : ℕ) (s : GenState) → Quiet l s (set_modified r s)
  unfolding set_modified
  set_modified-Quiet r s = set_flags-Quiet (s.regs r).dirty true r s

  pub set_both-Quiet : (r : ℕ) (s : GenState) → Quiet l s (set_both r s)
  unfolding set_both
  set_both-Quiet r s = set_flags-Quiet true true r s

  pub clear_volatile-Quiet : (r : ℕ) (s : GenState) → Quiet l s (clear_volatile r s)
  unfolding clear_volatile
  clear_volatile-Quiet r s =
      Quiet-if l (s.regs r).target_addr.is_volatile (clear-Quiet r s) (Quiet-refl l s)

  pub constant_load-IsPlain :
      (host : Host) (t : DataType) (r d : ℕ) → IsPlain l (constant_load host t r d)
  constant_load-IsPlain host t r d =
      elim (is_float t)
        as (λ b. IsPlain l (if b then Instr.li_s r d else Instr.li r (host.int_of_double d))) [
          | true ↦ (refl, refl)
          | false ↦ (refl, refl)
        ]

  pub load_double-Quiet :
      (host : Host) (r d : ℕ) (s : GenState) → Quiet l s (load_double host r d s)
  unfolding load_double
  load_double-Quiet host r d s =
      Quiet-trans l _ _ _ (emit-Quiet l _ s (constant_load-IsPlain host (s.regs r).reg_type r d))
        (set_dirty-Quiet r _)

  pub load_int-Quiet : (host : Host) (r v : ℕ) (s : GenState) → Quiet l s (load_int host r v s)
  unfolding load_int
  load_int-Quiet host r v s = load_double-Quiet host r (host.float_of_int v) s

  save_all-Quiet : (v : List ℕ) (s : GenState) → Quiet l s (save_all v s)
  unfolding save_all
  save_all-Quiet [] s = Quiet-refl l s
  save_all-Quiet (r ∷ v) s =
      Quiet-trans l _ _ _ (save-Quiet r s)
        (Quiet-trans l _ _ _ (clear-Quiet r (save r s)) (save_all-Quiet v _))

  pub save_and_clear-Quiet : (s : GenState) → Quiet l s (save_and_clear s)
  unfolding save_and_clear
  save_and_clear-Quiet s = save_all-Quiet registers s

  pub clear_all-Quiet : (v : List ℕ) (s : GenState) → Quiet l s (clear_all v s)
  unfolding clear_all
  clear_all-Quiet [] s = Quiet-refl l s
  clear_all-Quiet (r ∷ v) s = Quiet-trans l _ _ _ (clear-Quiet r s) (clear_all-Quiet v _)

  pub clear_reg_record-Quiet : (s : GenState) → Quiet l s (clear_reg_record s)
  unfolding clear_reg_record
  clear_reg_record-Quiet s =
      Quiet-trans l _ _ _ (clear_all-Quiet caller_reg s) (clear_all-Quiet float_caller _)

  pub lock-Quiet : (r : ℕ) (b : Bool) (s : GenState) → Quiet l s (lock r b s)
  unfolding lock
  lock-Quiet r b s = unchanged-Quiet l s (lock r b s) refl refl

  pub emits-Quiet :
      (code : List Instr) (s : GenState) → All (IsPlain l) code → Quiet l s (emits code s)
  emits-Quiet [] s h = Quiet-refl l s
  emits-Quiet (i ∷ code) s h =
      Quiet-trans l _ _ _ (emit-Quiet l i s h.0) (emits-Quiet code (emit i s) h.1)

  evict-Quiet : (r : ℕ) (s : GenState) → Quiet l s (evict r s)
  evict-Quiet r s =
      subst (λ t. Quiet l s t) (clear-save r s)
        (Quiet-trans l _ _ _ (save-Quiet r s) (clear-Quiet r (save r s)))

  pub Given-Quiet : {s : GenState} {r : ℕ} {t : GenState} → Given s r t → Quiet l s t
  Given-Quiet {s} {r} {t} (as_clean h) = Quiet-refl l s
  Given-Quiet {s} {r} {t} (as_unmodified h) = Quiet-refl l s
  Given-Quiet {s} {r} {t} (spilled n) =
      Quiet-trans l _ _ _ (unchanged-Quiet l s (record s { draws = n }) refl refl) (evict-Quiet r _)

-- ===== src/Backend/Evict.antt =====
-- What giving away a register does: the value of a variable that it holds is stored first.
use ntu_csie_complier.Prelude.{
  ℕ, Bool, true, false, List, [], ◌∷◌, ◌++◌, ◌==◌, Bool-cases, if◌then◌else◌, ◌≡◌, refl, ap,
  fun_ext, inl, inr, arith, ◌∙◌, sym, append-nil,
}
use ntu_csie_complier.Backend.Code.{Instr, Address}
use ntu_csie_complier.Backend.State.{
  Register, GenState, emit, put, set_reg, cleared, clear, store, save_to, save,
  is_variable_modified, set_flags,
}

-- The store of a register that holds a variable with a new value.
abbrev pub pending_if : Bool → ℕ → Register → List Instr
pending_if b r x = if b then store r x.reg_type x.target_addr ∷ [] else []

abbrev pub pending : ℕ → Register → List Instr
pending r x = pending_if (is_variable_modified x) r x

abbrev pub evict : ℕ → GenState → GenState
evict r s = record s {
  regs = put s.regs r (cleared (s.regs r));
  output = s.output ++ pending r (s.regs r);
}

pub put_same : (regs : ℕ → Register) (r : ℕ) (x : Register) → put regs r x r ≡ x
put_same regs r x = ground arith

pub put_other :
    (regs : ℕ → Register) (r : ℕ) (x : Register) (k : ℕ)
    → (k == r) ≡ false
    → put regs r x k ≡ regs k
put_other regs r x k h = ground arith

pub put_type :
    (regs : ℕ → Register) (r : ℕ) (x : Register) (k : ℕ)
    → x.reg_type ≡ (regs r).reg_type
    → (put regs r x k).reg_type ≡ (regs k).reg_type
put_type regs r x k e = ground (arith, e)

pub put-put : (regs : ℕ → Register) (r : ℕ) (x y : Register) → put (put regs r x) r y ≡ put regs r y
put-put regs r x y = fun_ext λ k. at_place k
  where
    at_place : (k : ℕ) → put (put regs r x) r y k ≡ put regs r y k
    at_place k = ground arith

set_reg-set_reg :
    (r : ℕ) (x y : Register) (s : GenState) → set_reg r y (set_reg r x s) ≡ set_reg r y s
unfolding set_reg
set_reg-set_reg r x y s = ap (λ regs. record s { regs = regs }) (put-put s.regs r x y)

clear-set_reg :
    (r : ℕ) (x : Register) (s : GenState) → clear r (set_reg r x s) ≡ set_reg r (cleared x) s
unfolding clear set_reg
clear-set_reg r x s =
    ap (λ y. set_reg r (cleared y) (set_reg r x s)) (put_same s.regs r x)
    ∙ set_reg-set_reg r x (cleared x) s

pub clear-set_flags : (d m : Bool) (r : ℕ) (s : GenState) → clear r (set_flags d m r s) ≡ clear r s
unfolding clear
clear-set_flags d m r s = clear-set_reg r (record (s.regs r) { dirty = d; modified = m }) s

pub clear-clear : (r : ℕ) (s : GenState) → clear r (clear r s) ≡ clear r s
unfolding clear
clear-clear r s = clear-set_reg r (cleared (s.regs r)) s

clear-save_to :
    (r : ℕ) (a : Address) (s : GenState)
    → clear r (save_to r a s) ≡ clear r (emit (store r (s.regs r).reg_type a) s)
unfolding save_to
clear-save_to r a s = elim (Bool-cases (s.regs r).target_addr.is_volatile) [
  | inl v ↦ rw v (clear-clear r (emit (store r (s.regs r).reg_type a) s))
  | inr v ↦ rw v refl
]

clear-save_if :
    (b : Bool) (r : ℕ) (s : GenState)
    → clear r (
        if b
        then set_flags false false r (save_to r (s.regs r).target_addr s)
        else set_flags false (s.regs r).modified r s)
      ≡ record s {
        regs = put s.regs r (cleared (s.regs r));
        output = s.output ++ pending_if b r (s.regs r);
      }
clear-save_if true r s =
    clear-set_flags false false r (save_to r (s.regs r).target_addr s)
    ∙ clear-save_to r (s.regs r).target_addr s
    ∙ unfold clear set_reg emit in refl
clear-save_if false r s =
    clear-set_flags false (s.regs r).modified r s
    ∙ (unfold clear set_reg in
        ap (λ out. record s { regs = put s.regs r (cleared (s.regs r)); output = out })
          (sym (append-nil s.output)))

-- Saving a register and then clearing it.
pub clear-save : (r : ℕ) (s : GenState) → clear r (save r s) ≡ evict r s
unfolding save
clear-save r s = clear-save_if (is_variable_modified (s.regs r)) r s

-- ===== src/Backend/Flush.antt =====
-- `saveAndClear` of src/Register.h: what it writes and what it leaves in the registers.
use ntu_csie_complier.Prelude.{
  ℕ, zero, suc, ◌+◌, ◌<◌, ◌≤◌, subst, List, [], ◌∷◌, ◌++◌, ◌==◌, Bool-cases, ◌≡◌, ◌∙◌, sym, refl,
  ap, inl, inr, arith, append-nil, append_assoc,
}
use ntu_csie_complier.Backend.Code.{Instr}
use ntu_csie_complier.Backend.State.{Register, GenState, cleared}
use ntu_csie_complier.Backend.Registers.{count_up, registers, save_all, save_and_clear}
use ntu_csie_complier.Backend.Evict.{evict, clear-save, pending, put_other, put_same}

-- The stores of all variables with new values, in the order of the registers.
unfoldable pub stores : (ℕ → Register) → List ℕ → List Instr
stores regs [] = []
stores regs (r ∷ v) = pending r (regs r) ++ stores regs v

unfoldable pub evicts : List ℕ → GenState → GenState
evicts [] s = s
evicts (r ∷ v) s = evicts v (evict r s)

save_all-evicts : (v : List ℕ) (s : GenState) → save_all v s ≡ evicts v s
unfolding save_all evicts
save_all-evicts [] s = refl
save_all-evicts (r ∷ v) s = ap (save_all v) (clear-save r s) ∙ save_all-evicts v (evict r s)

count_stores :
    (regs regs' : ℕ → Register) (first n : ℕ)
    → ((k : ℕ) → first ≤ k → regs k ≡ regs' k)
    → stores regs (count_up first n) ≡ stores regs' (count_up first n)
unfolding stores count_up
count_stores regs regs' first zero same = refl
count_stores regs regs' first (suc n) same =
    let rest = count_stores regs regs' (suc first) n (λ k le. same k (omega arith)) in
    ap (λ x. pending first x ++ stores regs (count_up (suc first) n)) (same first (omega arith))
    ∙ ap (λ c. pending first (regs' first) ++ c) rest

evicts-output :
    (first n : ℕ) (s : GenState)
    → (evicts (count_up first n) s).output ≡ s.output ++ stores s.regs (count_up first n)
unfolding evicts stores count_up
evicts-output first zero s = sym (append-nil s.output)
evicts-output first (suc n) s =
    let t = evict first s in
    evicts-output (suc first) n t
    ∙ ap (λ c. t.output ++ c)
        (count_stores t.regs s.regs (suc first) n
          (λ k le. put_other s.regs first (cleared (s.regs first)) k (ground arith)))
    ∙ append_assoc s.output (pending first (s.regs first)) (stores s.regs (count_up (suc first) n))

evicts-before :
    (first n : ℕ) (s : GenState) (k : ℕ)
    → k < first
    → (evicts (count_up first n) s).regs k ≡ s.regs k
unfolding evicts count_up
evicts-before first zero s k lt = refl
evicts-before first (suc n) s k lt =
    evicts-before (suc first) n (evict first s) k (omega arith)
    ∙ put_other s.regs first (cleared (s.regs first)) k (ground arith)

out_of_range : (first k : ℕ) → first ≤ k → k < first + 0 → ⊥
out_of_range first k le lt = omega arith

evicts-in :
    (first n : ℕ) (s : GenState) (k : ℕ)
    → first ≤ k
    → k < first + n
    → (evicts (count_up first n) s).regs k ≡ cleared (s.regs k)
unfolding evicts count_up
evicts-in first zero s k le lt = elim (out_of_range first k le lt) [ ]
evicts-in first (suc n) s k le lt = elim (Bool-cases (k == first)) [
  | inl e ↦
      let e' : k ≡ first = ground arith in
      subst (λ j. (evicts (count_up (suc first) n) (evict first s)).regs j ≡ cleared (s.regs j))
        (sym e')
        (evicts-before (suc first) n (evict first s) first (omega arith)
          ∙ put_same s.regs first (cleared (s.regs first)))
  | inr e ↦
      evicts-in (suc first) n (evict first s) k (ground arith) (omega arith)
      ∙ ap cleared (put_other s.regs first (cleared (s.regs first)) k e)
]

-- `saveAndClear` writes the stores of the variables with new values, in the order of the registers, and
-- nothing else, and leaves every register clear.
pub save_and_clear-stores :
    (s : GenState)
    → ((save_and_clear s).output ≡ s.output ++ stores s.regs registers)
      × ((r : ℕ) → r < 54 → (save_and_clear s).regs r ≡ cleared (s.regs r))
unfolding save_and_clear registers
save_and_clear-stores s =
    let e = save_all-evicts (count_up 0 54) s in
    (
      ap (λ t. t.output) e ∙ evicts-output 0 54 s,
      λ r lt. ap (λ t. t.regs r) e ∙ evicts-in 0 54 s r (omega arith) lt,
    )

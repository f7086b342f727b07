-- ===== src/Backend/Saved.antt =====
-- The registers that the code of src/Register.cpp saves in a frame and loads again.
use ntu_csie_complier.Prelude.{
  has, ℕ, suc, ◌+◌, ◌*◌, ◌-◌, ◌%◌, ◌<◌, ◌≤◌, Bool, true, false, ◌||◌, List, [], ◌∷◌, ◌++◌, ◌==◌,
  length, if◌then◌else◌, ◌≡◌, ◌∙◌, subst, refl, ap, arith, All,
}
use ntu_csie_complier.Semantic.Fold.{int_mod}
use ntu_csie_complier.Backend.Code.{Instr, indexed, fp}
use ntu_csie_complier.Backend.State.{is_float}
use ntu_csie_complier.Backend.Registers.{type_of_reg}
use ntu_csie_complier.Backend.Machine.{
  Processor, Machine, set_at, set_word, write_word, step, run, address_of,
}
use ntu_csie_complier.Backend.Written.{slot, save_lines, load_lines}

abbrev pub cell : ℕ → ℕ → ℕ
cell base i = (base + slot i) % int_mod

unfoldable pub saved : ℕ → List ℕ → Machine → Machine
saved i [] m = m
saved i (r ∷ v) m = saved (suc i) v (write_word (cell (m.regs fp) i) (m.regs r) m)

unfoldable pub loaded : ℕ → List ℕ → Machine → Machine
loaded i [] m = m
loaded i (r ∷ v) m = loaded (suc i) v (set_word r (m.mem (cell (m.regs fp) i)) m)

module _ (p : Processor) where
  pub run-save_lines :
      (i : ℕ) (v : List ℕ) (rest : List Instr) (m : Machine)
      → run p (save_lines i v ++ rest) m ≡ run p rest (saved i v m)
  unfolding run save_lines saved address_of step
  run-save_lines i [] rest m = refl
  run-save_lines i (r ∷ v) rest m =
      line (is_float (type_of_reg r))
      ∙ run-save_lines (suc i) v rest (write_word (cell (m.regs fp) i) (m.regs r) m)
    where
      line :
          (b : Bool)
          → run p
              ((if b then Instr.s_s r (indexed (slot i) fp) else Instr.sw r (indexed (slot i) fp))
                  ∷ save_lines (suc i) v
                ++ rest)
              m
            ≡ run p (save_lines (suc i) v ++ rest) (write_word (cell (m.regs fp) i) (m.regs r) m)
      line true = refl
      line false = refl

  pub run-load_lines :
      (i : ℕ) (v : List ℕ) (rest : List Instr) (m : Machine)
      → run p (load_lines i v ++ rest) m ≡ run p rest (loaded i v m)
  unfolding run load_lines loaded address_of step
  run-load_lines i [] rest m = refl
  run-load_lines i (r ∷ v) rest m =
      line (is_float (type_of_reg r))
      ∙ run-load_lines (suc i) v rest (set_word r (m.mem (cell (m.regs fp) i)) m)
    where
      line :
          (b : Bool)
          → run p
              ((if b then Instr.l_s r (indexed (slot i) fp) else Instr.lw r (indexed (slot i) fp))
                  ∷ load_lines (suc i) v
                ++ rest)
              m
            ≡ run p (load_lines (suc i) v ++ rest) (set_word r (m.mem (cell (m.regs fp) i)) m)
      line true = refl
      line false = refl

pub slot_below : (i : ℕ) → i < 22 → slot i ≡ int_mod - 4 - 4 * i
slot_below i lt = ground arith

cells_differ :
    (base i j : ℕ) → base < int_mod → j < i → i < 22 → (cell base j == cell base i) ≡ false
cells_differ base i j b lt le =
    let j_lt : j < 22 = omega arith in ground (arith, slot_below i le, slot_below j j_lt)

pub saved-regs : (i : ℕ) (v : List ℕ) (m : Machine) → (saved i v m).regs ≡ m.regs
unfolding saved
saved-regs i [] m = refl
saved-regs i (r ∷ v) m = saved-regs (suc i) v (write_word (cell (m.regs fp) i) (m.regs r) m)

pub set_at_same : (f : ℕ → ℕ) (a v : ℕ) → set_at f a v a ≡ v
set_at_same f a v = ground arith

pub set_at_other : (f : ℕ → ℕ) (a v k : ℕ) → (k == a) ≡ false → set_at f a v k ≡ f k
set_at_other f a v k e = ground arith

-- The cells from the `i`th on, for as many as there are registers, are not `a`.
abbrev pub IsOutside : ℕ → ℕ → ℕ → ℕ → Type 0
IsOutside base i n a = (k : ℕ) → k < n → (a == cell base (i + k)) ≡ false

pub saved-outside :
    (i : ℕ) (v : List ℕ) (m : Machine) (a : ℕ)
    → IsOutside (m.regs fp) i (length v) a
    → (saved i v m).mem a ≡ m.mem a
unfolding saved
saved-outside i [] m a out = refl
saved-outside i (r ∷ v) m a out =
    saved-outside (suc i) v (write_word (cell (m.regs fp) i) (m.regs r) m) a
      (λ k lt. ap (λ n. a == cell (m.regs fp) n) (omega arith) ∙ out (suc k) (omega arith))
    ∙ set_at_other m.mem (cell (m.regs fp) i) (m.regs r) a
        (ap (λ n. a == cell (m.regs fp) n) (omega arith) ∙ out 0 (omega arith))

-- The cells from the `i`th on hold the values of the registers.
unfoldable pub IsHeld : (ℕ → ℕ) → ℕ → ℕ → List ℕ → (ℕ → ℕ) → Type 0
IsHeld vals base i [] mem = Unit
IsHeld vals base i (r ∷ v) mem = (mem (cell base i) ≡ vals r) × IsHeld vals base (suc i) v mem

pub saved-IsHeld :
    (i : ℕ) (v : List ℕ) (m : Machine)
    → m.regs fp < int_mod
    → i + length v ≤ 22
    → IsHeld m.regs (m.regs fp) i v (saved i v m).mem
unfolding saved IsHeld
saved-IsHeld i [] m b le = tt
saved-IsHeld i (r ∷ v) m b le =
    let m' = write_word (cell (m.regs fp) i) (m.regs r) m in
    (
      saved-outside (suc i) v m' (cell (m.regs fp) i)
            (λ k lt. cells_differ (m.regs fp) (suc i + k) i b (omega arith) (omega arith))
          ∙ set_at_same m.mem (cell (m.regs fp) i) (m.regs r),
      saved-IsHeld (suc i) v m' b (omega arith),
    )

pub IsHeld-agree :
    (vals : ℕ → ℕ) (base i : ℕ) (v : List ℕ) (mem mem' : ℕ → ℕ)
    → ((k : ℕ) → k < length v → mem' (cell base (i + k)) ≡ mem (cell base (i + k)))
    → IsHeld vals base i v mem
    → IsHeld vals base i v mem'
unfolding IsHeld
IsHeld-agree vals base i [] mem mem' same h = tt
IsHeld-agree vals base i (r ∷ v) mem mem' same h = (
  subst (λ n. mem' (cell base n) ≡ mem (cell base n)) (omega arith) (same 0 (omega arith)) ∙ h.0,
  IsHeld-agree vals base (suc i) v mem mem'
      (λ k lt.
        subst (λ n. mem' (cell base n) ≡ mem (cell base n)) (omega arith)
          (same (suc k) (omega arith)))
      h.1,
)

pub IsHeld-vals :
    (vals vals' : ℕ → ℕ) (base i : ℕ) (v : List ℕ) (mem : ℕ → ℕ)
    → All (λ r. vals r ≡ vals' r) v
    → IsHeld vals base i v mem
    → IsHeld vals' base i v mem
unfolding IsHeld
IsHeld-vals vals vals' base i [] mem same h = tt
IsHeld-vals vals vals' base i (r ∷ v) mem same h =
    (h.0 ∙ same.0, IsHeld-vals vals vals' base (suc i) v mem same.1 h.1)

pub loaded-mem : (i : ℕ) (v : List ℕ) (m : Machine) → (loaded i v m).mem ≡ m.mem
unfolding loaded
loaded-mem i [] m = refl
loaded-mem i (r ∷ v) m = loaded-mem (suc i) v (set_word r (m.mem (cell (m.regs fp) i)) m)

load_step :
    (vals f : ℕ → ℕ) (r k w : ℕ) (b : Bool)
    → w ≡ vals r
    → (if b then vals k else set_at f r w k) ≡ (if k == r || b then vals k else f k)
load_step vals f r k w b e = ground (arith, e)

-- Loading the registers gives them the values that the cells hold, and changes no other register.
pub loaded-regs :
    (vals : ℕ → ℕ) (base i : ℕ) (v : List ℕ) (m : Machine) (k : ℕ)
    → m.regs fp ≡ base
    → has fp v ≡ false
    → IsHeld vals base i v m.mem
    → (loaded i v m).regs k ≡ (if has k v then vals k else m.regs k)
unfolding loaded IsHeld
loaded-regs vals base i [] m k e f h = refl
loaded-regs vals base i (r ∷ v) m k e f h =
    let w = m.mem (cell (m.regs fp) i) in
    let e' : w ≡ vals r = ap (λ b. m.mem (cell b i)) e ∙ h.0 in
    let other : (fp == r) ≡ false = ground arith in
    loaded-regs vals base (suc i) v (set_word r w m) k (set_at_other m.regs r w fp other ∙ e)
      (ground arith) h.1
    ∙ load_step vals m.regs r k w (has k v) e'

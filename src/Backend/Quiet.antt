-- ===== src/Backend/Quiet.antt =====
-- Steps of src/Register.cpp that neither define a label of `getTag` nor go to one: what all code of
-- src/codeGen.c consists of, besides labels and branches.
pub mod Steps
pub mod Rules
pub mod Operations
pub mod Loads
use ntu_csie_complier.Prelude.{
  ℕ, ◌+◌, Bool, true, false, List, [], ◌∷◌, ◌++◌, ◌==◌, if◌then◌else◌, ◌≡◌, refl, arith, ap, sym,
  ◌∙◌, append-nil, append_assoc,
}
use ntu_csie_complier.Backend.Code.{Label, Instr}
use ntu_csie_complier.Backend.State.{Register, GenState, emit, set_reg}
use ntu_csie_complier.Backend.Evict.{put_type}
use ntu_csie_complier.Backend.Labels.{defined, used, total, total-snoc}

-- The code is appended to, and the registers keep their kinds.
pub record Grows (s t : GenState) : Type 0 where
  pub code : List Instr
  pub output_is : t.output ≡ s.output ++ code
  pub same_types : (r : ℕ) → (t.regs r).reg_type ≡ (s.regs r).reg_type

pub Grows-refl : (s : GenState) → Grows s s
Grows-refl s = record { code = []; output_is = sym (append-nil s.output); same_types = λ r. refl }

pub Grows-trans : {s t u : GenState} → Grows s t → Grows t u → Grows s u
Grows-trans {s} p q = record {
  code = p.code ++ q.code;
  output_is = q.output_is ∙ ap (λ o. o ++ q.code) p.output_is ∙ append_assoc s.output p.code q.code;
  same_types = λ r. q.same_types r ∙ p.same_types r;
}

module _ (l : Label) where
  abbrev pub definitions : GenState → ℕ
  definitions s = total (defined l) s.output

  abbrev pub uses : GenState → ℕ
  uses s = total (used l) s.output

  pub record Quiet (s t : GenState) : Type 0 where
    pub grows : Grows s t
    pub same_definitions : definitions t ≡ definitions s
    pub same_uses : uses t ≡ uses s

  pub Quiet-refl : (s : GenState) → Quiet s s
  Quiet-refl s = record { grows = Grows-refl s; same_definitions = refl; same_uses = refl }

  pub Quiet-trans : (s t u : GenState) → Quiet s t → Quiet t u → Quiet s u
  Quiet-trans s t u p q = record {
    grows = Grows-trans p.grows q.grows;
    same_definitions = q.same_definitions ∙ p.same_definitions;
    same_uses = q.same_uses ∙ p.same_uses;
  }

  -- An instruction that is neither.
  abbrev pub IsPlain : Instr → Type 0
  IsPlain i = (defined l i ≡ 0) × (used l i ≡ 0)

  pub emit-Quiet : (i : Instr) (s : GenState) → IsPlain i → Quiet s (emit i s)
  unfolding emit
  emit-Quiet i s (d, u) = record {
    grows = record { code = i ∷ []; output_is = refl; same_types = λ r. refl };
    same_definitions = (let e = total-snoc (defined l) s.output i in omega arith);
    same_uses = (let e = total-snoc (used l) s.output i in omega arith);
  }

  -- A change of neither the code nor the registers.
  pub unchanged-Quiet : (s t : GenState) → t.output ≡ s.output → t.regs ≡ s.regs → Quiet s t
  unchanged-Quiet s t e e' = record {
    grows = record {
      code = [];
      output_is = e ∙ sym (append-nil s.output);
      same_types = λ r. ap (λ (f : ℕ → Register). (f r).reg_type) e';
    };
    same_definitions = ap (total (defined l)) e;
    same_uses = ap (total (used l)) e;
  }

  -- A change of a register other than of its kind.
  pub set_reg-Quiet :
      (r : ℕ) (x : Register) (s : GenState)
      → x.reg_type ≡ (s.regs r).reg_type
      → Quiet s (set_reg r x s)
  unfolding set_reg
  set_reg-Quiet r x s e = record {
    grows = record {
      code = [];
      output_is = sym (append-nil s.output);
      same_types = λ k. put_type s.regs r x k e;
    };
    same_definitions = refl;
    same_uses = refl;
  }

  pub Quiet-if :
      (b : Bool) {s t u : GenState} → Quiet s t → Quiet s u → Quiet s (if b then t else u)
  Quiet-if true p q = p
  Quiet-if false p q = q

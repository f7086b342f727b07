-- ===== src/Backend/Allocation.antt =====
-- What `getReg` of src/Register.cpp guarantees: which register it gives, what becomes of the value that
-- the register held, and that it gives one.
use ntu_csie_complier.Prelude.{
  ℕ, Bool, true, false, not, ◌&&◌, List, [], ◌∷◌, ◌++◌, ◌==◌, Bool-cases, if◌then◌else◌, ◌≡◌, ◌∙◌,
  sym, refl, ap, inl, inr, arith, append-nil, All,
}
use ntu_csie_complier.Effect.Post.{Post, weaken}
use ntu_csie_complier.Types.{DataType}
use ntu_csie_complier.Backend.State.{
  Register, GenState, Host, is_variable_modified, is_float, cleared,
}
use ntu_csie_complier.Backend.Registers.{
  get_reg, pool, type_of_reg, count_up, caller_reg, callee_reg, float_caller, float_callee,
}
use ntu_csie_complier.Backend.Evict.{pending, pending_if, put_other, put_type}
use ntu_csie_complier.Backend.Vacant.{
  Any, here, there, Given, as_clean, as_unmodified, spilled, find_vacant-Given,
}

-- Each register holds values of its kind.
abbrev pub Typed : GenState → Type 0
Typed s = (r : ℕ) → (s.regs r).reg_type ≡ type_of_reg r

-- A register that holds a new value of a variable is dirty.
abbrev pub IsTracked : GenState → Type 0
IsTracked s = (r : ℕ) → is_variable_modified (s.regs r) ≡ true → (s.regs r).dirty ≡ true

-- The state behind giving away the register `r`.
pub record GivenAway (s : GenState) (r : ℕ) (t : GenState) : Type 0 where
  pub writes : t.output ≡ s.output ++ pending r (s.regs r)
  pub others : (k : ℕ) → (k == r) ≡ false → t.regs k ≡ s.regs k
  pub same_locks : t.locked ≡ s.locked

unmodified : (x : Register) → x.modified ≡ false → is_variable_modified x ≡ false
unmodified x h = ground arith

clean :
    (x : Register)
    → (is_variable_modified x ≡ true → x.dirty ≡ true)
    → x.dirty ≡ false
    → is_variable_modified x ≡ false
clean x t h = elim (Bool-cases (is_variable_modified x)) [ inl e ↦ ground (arith, t e) | inr e ↦ e ]

writes_nothing : (s : GenState) (r : ℕ) → is_variable_modified (s.regs r) ≡ false → GivenAway s r s
writes_nothing s r h = record {
  writes = sym (ap (λ b. s.output ++ pending_if b r (s.regs r)) h ∙ append-nil s.output);
  others = λ k h. refl;
  same_locks = refl;
}

pub Given-GivenAway :
    {s : GenState} {r : ℕ} {t : GenState} → IsTracked s → Given s r t → GivenAway s r t
Given-GivenAway {s} {r} {t} tracked (as_clean h) =
    writes_nothing s r (clean (s.regs r) (tracked r) h)
Given-GivenAway {s} {r} {t} tracked (as_unmodified h) = writes_nothing s r (unmodified (s.regs r) h)
Given-GivenAway {s} {r} {t} tracked (spilled n) = record {
  writes = refl;
  others = λ k h. put_other s.regs r (cleared (s.regs r)) k h;
  same_locks = refl;
}

module _ (host : Host) where
  -- Where each register with a new value of a variable is dirty and `getReg` finds a register, it has
  -- written the store of the variable that the register held, if its value was new, and nothing
  -- else; the other registers and the locks are as before.
  pub get_reg-GivenAway :
      (t : DataType) (is_caller : Bool) (s : GenState)
      → IsTracked s
      → Post (λ r u. GivenAway s r u) (get_reg host t is_caller s)
  unfolding get_reg
  get_reg-GivenAway t is_caller s tracked =
      weaken (find_vacant-Given host (pool t is_caller) s) (λ r u p. Given-GivenAway tracked p.1)

of_pool : (P : ℕ → Type 0) {test : ℕ → Bool} {v : List ℕ} {r : ℕ} → All P v → Any test v r → P r
of_pool P h (here e) = h.0
of_pool P h (there a) = of_pool P h.1 a

Given-Typed : {s : GenState} {r : ℕ} {t : GenState} → Typed s → Given s r t → Typed t
Given-Typed {s} {r} {t} typed (as_clean h) k = typed k
Given-Typed {s} {r} {t} typed (as_unmodified h) k = typed k
Given-Typed {s} {r} {t} typed (spilled n) k =
    put_type s.regs r (cleared (s.regs r)) k refl ∙ typed k

abbrev IsKind : Bool → ℕ → Type 0
IsKind b r = is_float (type_of_reg r) ≡ b

abbrev all_kind : Bool → List ℕ → Bool
all_kind b [] = true
all_kind b (r ∷ v) = (if is_float (type_of_reg r) then b else not b) && all_kind b v

kind_at : (f b rest : Bool) → ((if f then b else not b) && rest) ≡ true → f ≡ b
kind_at f b rest h = ground arith

kind_rest : (f b rest : Bool) → ((if f then b else not b) && rest) ≡ true → rest ≡ true
kind_rest f b rest h = ground arith

all_kind-All : (b : Bool) (v : List ℕ) → all_kind b v ≡ true → All (IsKind b) v
all_kind-All b [] h = tt
all_kind-All b (r ∷ v) h = (
  kind_at (is_float (type_of_reg r)) b (all_kind b v) h,
  all_kind-All b v (kind_rest (is_float (type_of_reg r)) b (all_kind b v) h),
)

-- All registers of the pool for a type hold values of that type.
pool-IsKind :
    (f is_caller : Bool)
    → All (IsKind f) (
        if is_caller
        then (if f then float_caller else caller_reg)
        else (if f then float_callee else callee_reg))
unfolding float_caller float_callee count_up
pool-IsKind true true = all_kind-All true float_caller refl
pool-IsKind false true = all_kind-All false caller_reg refl
pool-IsKind true false = all_kind-All true float_callee refl
pool-IsKind false false = all_kind-All false callee_reg refl

module _ (host : Host) where
  -- Where each register holds values of its kind and `getReg` finds a register, that register holds
  -- `float`s if and only if a `float` was asked for, and each register still holds values of its
  -- kind.
  pub get_reg-Typed :
      (t : DataType) (is_caller : Bool) (s : GenState)
      → Typed s
      → Post
          (λ r u. (is_float (u.regs r).reg_type ≡ is_float t) × Typed u)
          (get_reg host t is_caller s)
  unfolding get_reg
  get_reg-Typed t is_caller s typed = weaken (find_vacant-Given host (pool t is_caller) s) (λ r u p.
      let typed' = Given-Typed typed p.1 in
      (
        ap is_float (typed' r)
            ∙ of_pool (IsKind (is_float t)) (pool-IsKind (is_float t) is_caller) p.0,
        typed',
      ))

-- ===== src/Backend/Layout.antt =====
-- Where `addVariable` of src/Register.cpp puts the local variables of a function.
use ntu_csie_complier.Prelude.{
  ℕ, ◌+◌, ◌-◌, ◌%◌, ◌<◌, ◌≤◌, Bool, true, false, Option, none, some, some-injective, ◌==◌,
  Bool-cases, if◌then◌else◌, ◌≡◌, ◌≢◌, ◌⊎◌, ◌∙◌, sym, subst, ap, inl, inr, arith,
}
use ntu_csie_complier.Types.Descriptor.{size}
use ntu_csie_complier.Semantic.Fold.{int_mod, int_min}
use ntu_csie_complier.Backend.Code.{Address, reg_address, plus, minus, fp}
use ntu_csie_complier.Backend.Frame.{
  ArSystem, Variable, add_variable, bind_address, add_param, add_global, add_local,
}

-- A variable is `t` bytes below the frame pointer.
abbrev pub IsAt : (ℕ → Option Address) → ℕ → ℕ → Type 0
IsAt map e t = map e ≡ some (minus (reg_address fp) t)

-- The local variables are in the frame, below the saved registers, and do not overlap: a variable at
-- `t` takes the bytes from there up.
pub record IsLaidOut (size_of : ℕ → ℕ) (map : ℕ → Option Address) (total : ℕ) : Type 0 where
  pub within : (e t : ℕ) → t < int_min → IsAt map e t → (88 + size_of e ≤ t) × (t ≤ total)
  pub apart :
      (e e' t t' : ℕ)
      → t < int_min
      → t' < int_min
      → IsAt map e t
      → IsAt map e' t'
      → e ≢ e'
      → (t + size_of e' ≤ t') ⊎ (t' + size_of e ≤ t)

minus-injective :
    (t u : ℕ)
    → t < int_min
    → u < int_min
    → minus (reg_address fp) t ≡ minus (reg_address fp) u
    → t ≡ u
unfolding minus
minus-injective t u lt lu e =
    let o : (0 + int_mod - t) % int_mod ≡ (0 + int_mod - u) % int_mod = ap (λ a. a.offset) e in
    omega (arith, o)

plus-above :
    (o t : ℕ)
    → 8 ≤ o
    → o < int_min
    → t < int_min
    → plus (reg_address fp) o ≡ minus (reg_address fp) t
    → ⊥
unfolding minus plus
plus-above o t le lo lt e =
    let h : (0 + int_mod - (int_mod - o) % int_mod) % int_mod ≡ (0 + int_mod - t) % int_mod =
      ap (λ a. a.offset) e in
    omega (arith, h)

bound_new : (map : ℕ → Option Address) (e : ℕ) (a : Address) → bind_address map e a e ≡ some a
bound_new map e a = ground arith

bound_old :
    (map : ℕ → Option Address) (e k : ℕ) (a : Address)
    → (k == e) ≡ false
    → bind_address map e a k ≡ map k
bound_old map e k a h = ground arith

-- Where an entry is: it is the one just bound, or where it was.
bound_at :
    (map : ℕ → Option Address) (e k : ℕ) (a b : Address)
    → bind_address map e a k ≡ some b
    → ((k ≡ e) × (a ≡ b)) ⊎ (map k ≡ some b)
bound_at map e k a b h = elim (Bool-cases (k == e)) [
  | inl h' ↦
      let same : k ≡ e = ground arith in
      inl (
        same,
        some-injective a b (sym (bound_new map e a) ∙ ap (bind_address map e a) (sym same) ∙ h),
      )
  | inr h' ↦ inr (sym (bound_old map e k a h') ∙ h)
]

module _ (size_of : ℕ → ℕ) (map : ℕ → Option Address) (total : ℕ)
    (laid : IsLaidOut size_of map total) where
  placed :
      (e k t u : ℕ)
      → u < int_min
      → t < int_min
      → IsAt (bind_address map e (minus (reg_address fp) u)) k t
      → ((k ≡ e) × (u ≡ t)) ⊎ IsAt map k t
  placed e k t u lu lt at =
      elim (bound_at map e k (minus (reg_address fp) u) (minus (reg_address fp) t) at) [
        | inl (same, h) ↦ inl (same, minus-injective u t lu lt h)
        | inr old ↦ inr old
      ]

  -- A variable put below all others.
  local-IsLaidOut :
      (e n : ℕ)
      → size_of e ≡ n
      → 88 ≤ total
      → total + n < int_min
      → IsLaidOut size_of (bind_address map e (minus (reg_address fp) (total + n))) (total + n)
  local-IsLaidOut e n is_n le lt = record {
    within = λ k t lt' at. elim (placed e k t (total + n) lt lt' at) [
      | inl (same, top) ↦
          let s : size_of k ≡ n = ap size_of same ∙ is_n in
          (omega (arith, s, top), omega (arith, top))
      | inr old ↦ let w = laid.within k t lt' old in (w.0, omega (arith, w.1))
    ];
    apart = λ k k' t t' l l' at at' differ. elim (placed e k t (total + n) lt l at) [
      | inl (same, top) ↦ elim (placed e k' t' (total + n) lt l' at') [
        | inl (same', top') ↦ elim (differ (same ∙ sym same')) [ ]
        | inr old' ↦
            let w = laid.within k' t' l' old' in
            let s : size_of k ≡ n = ap size_of same ∙ is_n in inr (omega (arith, w.1, s, top))
      ]
      | inr old ↦
          let w = laid.within k t l old in
          elim (placed e k' t' (total + n) lt l' at') [
            | inl (same', top') ↦
                let s : size_of k' ≡ n = ap size_of same' ∙ is_n in
                inl (omega (arith, w.1, s, top'))
            | inr old' ↦ laid.apart k k' t t' l l' old old' differ
          ]
    ];
  }

  -- A parameter, which is above the frame pointer.
  param-IsLaidOut :
      (e o : ℕ)
      → 8 ≤ o
      → o < int_min
      → IsLaidOut size_of (bind_address map e (plus (reg_address fp) o)) total
  param-IsLaidOut e o le lo =
      let old =
        λ (k t : ℕ) (l : t < int_min)
            (at : IsAt (bind_address map e (plus (reg_address fp) o)) k t).
          not_above k t l
            (bound_at map e k (plus (reg_address fp) o) (minus (reg_address fp) t) at) in
      record {
        within = λ k t l at. laid.within k t l (old k t l at);
        apart = λ k k' t t' l l' at at' differ.
            laid.apart k k' t t' l l' (old k t l at) (old k' t' l' at') differ;
      }
    where
      not_above :
          (k t : ℕ)
          → t < int_min
          → ((k ≡ e) × (plus (reg_address fp) o ≡ minus (reg_address fp) t)) ⊎ IsAt map k t
          → IsAt map k t
      not_above k t l (inl (same, h)) = elim (plus-above o t le lo l h) [ ]
      not_above k t l (inr at) = at

abbrev pub LaidOutIn : (ℕ → ℕ) → ArSystem → Type 0
LaidOutIn size_of a = IsLaidOut size_of a.local_variable a.total_offset

add_local-IsLaidOut :
    (size_of : ℕ → ℕ) (v : Variable) (a : ArSystem)
    → size_of v.entry ≡ size v.type
    → 88 ≤ a.total_offset
    → a.total_offset + size v.type < int_min
    → LaidOutIn size_of a
    → LaidOutIn size_of (add_local v a)
unfolding add_local
add_local-IsLaidOut size_of v a is_size le lt laid =
    subst
      (λ total.
        IsLaidOut size_of (bind_address a.local_variable v.entry (minus (reg_address fp) total))
          total)
      (omega (arith, lt))
      (local-IsLaidOut size_of a.local_variable a.total_offset laid v.entry (size v.type) is_size le
        lt)

add_param-IsLaidOut :
    (size_of : ℕ → ℕ) (v : Variable) (a : ArSystem)
    → 8 ≤ a.param_offset
    → a.param_offset < int_min
    → LaidOutIn size_of a
    → LaidOutIn size_of (add_param v a)
unfolding add_param
add_param-IsLaidOut size_of v a le lt laid =
    param-IsLaidOut size_of a.local_variable a.total_offset laid v.entry a.param_offset le lt

add_global-IsLaidOut :
    (size_of : ℕ → ℕ) (v : Variable) (a : ArSystem)
    → LaidOutIn size_of a
    → LaidOutIn size_of (add_global v a)
unfolding add_global
add_global-IsLaidOut size_of v a laid = laid

-- If the local variables of a function are apart from each other and below the 88 bytes of saved
-- registers, they are so after any declaration of a variable or a parameter, as long as the frame and
-- the parameters each take less than 2^31 bytes.
pub add_variable-IsLaidOut :
    (size_of : ℕ → ℕ) (v : Variable) (is_param : Bool) (a : ArSystem)
    → size_of v.entry ≡ size v.type
    → 88 ≤ a.total_offset
    → a.total_offset + size v.type < int_min
    → 8 ≤ a.param_offset
    → a.param_offset < int_min
    → LaidOutIn size_of a
    → LaidOutIn size_of (add_variable v is_param a)
unfolding add_variable
add_variable-IsLaidOut size_of v is_param a is_size le lt lp lq laid =
    choose (v.nesting_level == 0) is_param
  where
    choose :
        (g b : Bool)
        → LaidOutIn size_of
            (if g then add_global v a else if b then add_param v a else add_local v a)
    choose true b = add_global-IsLaidOut size_of v a laid
    choose false true = add_param-IsLaidOut size_of v a lp lq laid
    choose false false = add_local-IsLaidOut size_of v a is_size le lt laid

-- A function begins with no local variables.
pub no_locals-IsLaidOut : (size_of : ℕ → ℕ) (total : ℕ) → IsLaidOut size_of (λ e. none) total
no_locals-IsLaidOut size_of total = record {
  within = λ e t l at. ground arith;
  apart = λ e e' t t' l l' at at' differ. ground arith;
}

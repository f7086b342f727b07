-- ===== src/Semantic/Typing.antt =====
-- What the types that src/semanticAnalysis.c computes mean.
use ntu_csie_complier.Prelude.{
  ℕ, sym, subst, ◌==◌, ==_iff, zero, suc, Bool, true, false, not, ◌&&◌, ◌||◌, ◌≡◌, refl, ap, ◌∙◌,
  ◌↔◌, ◌⊎◌, inl, inr, arith, some, List, [], ◌∷◌, length, if◌then◌else◌,
}
use ntu_csie_complier.Types.{
  type_index, DataType, int_type, float_type, void_type, int_ptr_type, float_ptr_type,
  const_string_type, none_type, error_type, same_type, is_ptr, Parameter,
}
use ntu_csie_complier.Ast.{Exprs, nil, cons}
use ntu_csie_complier.Semantic.State.{State}
use ntu_csie_complier.Semantic.Calls.{
  pass_parameters, count_exprs, Arity, matched, too_few, too_many,
}
use ntu_csie_complier.Semantic.Stmt.{return_mismatch}

-- The types of single numbers.
pub data IsNumber : DataType → Type 0 where
  int_number : IsNumber int_type
  float_number : IsNumber float_type

-- The type of an operation on two numbers, as C has it.
unfoldable pub usual_type : Bool → DataType → DataType → DataType
usual_type true int_type int_type = int_type
usual_type true l r = float_type
usual_type false l r = int_type

-- The types of which there is no arithmetic.
pub data IsRejected : DataType → Type 0 where
  rejects_void : IsRejected void_type
  rejects_int_ptr : IsRejected int_ptr_type
  rejects_float_ptr : IsRejected float_ptr_type
  rejects_string : IsRejected const_string_type
  rejects_error : IsRejected error_type

-- The tests of `processExprNode` on one operand.
abbrev pub is_rejected : DataType → Bool
is_rejected d =
    is_ptr d || (same_type d const_string_type || (same_type d error_type || same_type d void_type))

-- Which values a function may return where it declares `d`.
pub data Returns : DataType → DataType → Type 0 where
  same : {d : DataType} → Returns d d
  float_to_int : Returns int_type float_type
  int_to_float : Returns float_type int_type

type_at : ℕ → DataType
type_at k =
    if k == 0
    then int_type
    else if k == 1
    then float_type
    else if k == 2
    then void_type
    else if k == 3
    then int_ptr_type
    else if k == 4
    then float_ptr_type
    else if k == 5
    then const_string_type
    else if k == 6
    then none_type
    else error_type

type_at-index : (d : DataType) → type_at (type_index d) ≡ d
unfolding type_at
type_at-index int_type = refl
type_at-index float_type = refl
type_at-index void_type = refl
type_at-index int_ptr_type = refl
type_at-index float_ptr_type = refl
type_at-index const_string_type = refl
type_at-index none_type = refl
type_at-index error_type = refl

pub same_type→≡ : (d e : DataType) → same_type d e ≡ true → d ≡ e
same_type→≡ d e h =
    sym (type_at-index d)
    ∙ ap type_at ((==_iff (type_index d) (type_index e)).0 h)
    ∙ type_at-index e

accepted :
    (a b c e f : Bool)
    → (not a && not (b && c || e && f)) ≡ false
    → (a ≡ true) ⊎ ((b ≡ true) × (c ≡ true)) ⊎ ((e ≡ true) × (f ≡ true))
accepted a b c e f h = ground arith

Returns-accepted :
    {declared d : DataType} → Returns declared d → return_mismatch declared (some d) ≡ false
unfolding return_mismatch
Returns-accepted {d} same = rw ((==_iff (type_index d) (type_index d)).1 refl)
Returns-accepted float_to_int = refl
Returns-accepted int_to_float = refl

-- A `return` with a value is accepted exactly where the value has the return type, or one of the two
-- is `int` and the other `float`.
pub return_mismatch-Returns :
    (declared d : DataType) → (return_mismatch declared (some d) ≡ false) ↔ Returns declared d
unfolding return_mismatch
return_mismatch-Returns declared d = (
  λ h.
      elim (accepted (same_type declared d) (same_type declared float_type) (same_type d int_type)
        (same_type declared int_type) (same_type d float_type) h) [
          | inl e ↦ subst (Returns declared) (same_type→≡ declared d e) same
          | inr (inl (x, y)) ↦
              subst (λ e. Returns e d) (sym (same_type→≡ declared float_type x))
                (subst (Returns float_type) (sym (same_type→≡ d int_type y)) int_to_float)
          | inr (inr (x, y)) ↦
              subst (λ e. Returns e d) (sym (same_type→≡ declared int_type x))
                (subst (Returns int_type) (sym (same_type→≡ d float_type y)) float_to_int)
        ],
  λ r. Returns-accepted r,
)

unfoldable pub arity_of : ℕ → ℕ → Arity
arity_of zero zero = matched
arity_of (suc k) zero = too_few
arity_of zero (suc n) = too_many
arity_of (suc k) (suc n) = arity_of k n

-- The loop over a call's parameters reports how the numbers of formal and of actual parameters
-- compare, whatever errors the parameters have, and keeps the number of actual parameters.
pub pass_parameters-arity :
    (ps : List Parameter) (es : Exprs) (s : State)
    → ((pass_parameters ps es s).arity ≡ arity_of (length ps) (count_exprs es))
      × (count_exprs (pass_parameters ps es s).actuals ≡ count_exprs es)
unfolding pass_parameters arity_of
pass_parameters-arity [] nil s = (refl, refl)
pass_parameters-arity (p ∷ ps) nil s = (refl, refl)
pass_parameters-arity [] (cons e es) s = (refl, refl)
pass_parameters-arity (p ∷ ps) (cons e es) s =
    let (a, c) = pass_parameters-arity ps es _ in (a, ap suc c)

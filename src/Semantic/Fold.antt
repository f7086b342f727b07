-- ===== src/Semantic/Fold.antt =====
-- Constant folding: `getExprOrConstValue` and `evaluateExprValue` of src/semanticAnalysis.c.
use ntu_csie_complier.Prelude.{
  ℕ, ◌+◌, ◌-◌, ◌*◌, ◌/◌, ◌%◌, ◌^◌, Bool, true, not, ◌&&◌, ◌||◌, Option, none, some, ltb, leb, ◌==◌,
  if◌then◌else◌,
}
use ntu_csie_complier.Types.{
  DataType, BinaryOperator, op_add, op_sub, op_mul, op_div, op_eq, op_ge, op_le, op_ne, op_gt,
  op_lt, op_and, op_or, UnaryOperator, op_positive, op_negative, op_logical_negation, ConType,
  integerc, floatc, stringc, same_type,
}
use ntu_csie_complier.Ast.{ExprNode, Expr, data_type_of}

-- The arithmetic of the machine on `float` and `double` bit patterns.
pub record Fpu : Type 0 where
  pub of_int : ℕ → ℕ
  pub of_double : ℕ → ℕ
  pub add : ℕ → ℕ → ℕ
  pub sub : ℕ → ℕ → ℕ
  pub mul : ℕ → ℕ → ℕ
  pub div : ℕ → ℕ → ℕ
  pub eq : ℕ → ℕ → Bool
  pub ge : ℕ → ℕ → Bool
  pub le : ℕ → ℕ → Bool
  pub ne : ℕ → ℕ → Bool
  pub gt : ℕ → ℕ → Bool
  pub lt : ℕ → ℕ → Bool
  pub neg : ℕ → ℕ
  pub is_nonzero : ℕ → Bool

-- An `int` is its 32 bits. Sums and products wrap round, as compiled code does.
abbrev pub int_mod : ℕ
int_mod = 2 ^ 32

abbrev pub int_min : ℕ
int_min = 2 ^ 31

unfoldable pub neg32 : ℕ → ℕ
neg32 a = (int_mod - a) % int_mod

-- The order of signed words: by the bits with the sign bit turned over.
unfoldable pub lt32 : ℕ → ℕ → Bool
lt32 a b = ltb ((a + int_min) % int_mod) ((b + int_min) % int_mod)

abbrev pub is_negative : ℕ → Bool
is_negative a = leb int_min a

abbrev pub magnitude : ℕ → ℕ
magnitude a = if is_negative a then int_mod - a else a

-- `none`: the division traps.
unfoldable pub div32 : ℕ → ℕ → Option ℕ
unfolding neg32
div32 a b =
    if b == 0 || (a == int_min && b == int_mod - 1)
    then none
    else let q = magnitude a / magnitude b in
      some (
        if is_negative a
        then (if is_negative b then q else neg32 q)
        else if is_negative b
        then neg32 q
        else q)

abbrev pub bool_word : Bool → ℕ
bool_word b = if b then 1 else 0

unfoldable pub binary_int : BinaryOperator → ℕ → ℕ → Option ℕ
unfolding lt32 div32
binary_int op_add a b = some ((a + b) % int_mod)
binary_int op_sub a b = some ((a + int_mod - b) % int_mod)
binary_int op_mul a b = some (a * b % int_mod)
binary_int op_div a b = div32 a b
binary_int op_eq a b = some (bool_word (a == b))
binary_int op_ge a b = some (bool_word (not (lt32 a b)))
binary_int op_le a b = some (bool_word (not (lt32 b a)))
binary_int op_ne a b = some (bool_word (not (a == b)))
binary_int op_gt a b = some (bool_word (lt32 b a))
binary_int op_lt a b = some (bool_word (lt32 a b))
binary_int op_and a b = some (bool_word (not (a == 0) && not (b == 0)))
binary_int op_or a b = some (bool_word (not (a == 0) || not (b == 0)))

unfoldable pub unary_int : UnaryOperator → ℕ → ℕ
unfolding neg32
unary_int op_positive a = a
unary_int op_negative a = neg32 a
unary_int op_logical_negation a = bool_word (a == 0)

-- The word that the node of a constant or of a folded expression holds.
abbrev pub const_int : ConType → ℕ
const_int (integerc w) = w
const_int (floatc d) = 0
const_int (stringc t) = 0

-- `getExprOrConstValue(node, &i, NULL)`, which is called on `INT_TYPE` only.
unfoldable pub get_int_value : Expr → ℕ
get_int_value (Expr.const c) = const_int c.const1
get_int_value (Expr.binary n op l r) = n.const_eval_value
get_int_value (Expr.unary n op e) = n.const_eval_value
get_int_value e = 0

abbrev pub folded : ExprNode → DataType → ℕ → ExprNode
folded n d w = record n { data_type = d; is_const_eval = true; const_eval_value = w }

abbrev pub folded_int : ExprNode → Option ℕ → Option ExprNode
folded_int n none = none
folded_int n (some w) = some (folded n DataType.int_type w)

module _ (fpu : Fpu) where
  -- A comparison's 0 or 1 is stored through the `float` member.
  unfoldable pub float_bool : Bool → ℕ
  float_bool b = fpu.of_int (bool_word b)

  unfoldable pub binary_float : BinaryOperator → ℕ → ℕ → ℕ
  unfolding float_bool
  binary_float op_add a b = fpu.add a b
  binary_float op_sub a b = fpu.sub a b
  binary_float op_mul a b = fpu.mul a b
  binary_float op_div a b = fpu.div a b
  binary_float op_eq a b = float_bool (fpu.eq a b)
  binary_float op_ge a b = float_bool (fpu.ge a b)
  binary_float op_le a b = float_bool (fpu.le a b)
  binary_float op_ne a b = float_bool (fpu.ne a b)
  binary_float op_gt a b = float_bool (fpu.gt a b)
  binary_float op_lt a b = float_bool (fpu.lt a b)
  binary_float op_and a b = float_bool (fpu.is_nonzero a && fpu.is_nonzero b)
  binary_float op_or a b = float_bool (fpu.is_nonzero a || fpu.is_nonzero b)

  unfoldable pub unary_float : UnaryOperator → ℕ → ℕ
  unfolding float_bool
  unary_float op_positive a = a
  unary_float op_negative a = fpu.neg a
  unary_float op_logical_negation a = float_bool (not (fpu.is_nonzero a))

  abbrev pub const_float : ConType → ℕ
  const_float (integerc w) = 0
  const_float (floatc d) = fpu.of_double d
  const_float (stringc t) = 0

  -- `getExprOrConstValue(node, NULL, &f)`.
  unfoldable pub get_float_value : Expr → ℕ
  get_float_value (Expr.const c) =
      if same_type c.data_type DataType.int_type
      then fpu.of_int (const_int c.const1)
      else const_float c.const1
  get_float_value (Expr.binary n op l r) =
      if same_type n.data_type DataType.int_type
      then fpu.of_int n.const_eval_value
      else n.const_eval_value
  get_float_value (Expr.unary n op e) =
      if same_type n.data_type DataType.int_type
      then fpu.of_int n.const_eval_value
      else n.const_eval_value
  get_float_value e = 0

  -- `evaluateExprValue`, and `isConstEval = 1` behind it.
  unfoldable pub evaluate_binary : ExprNode → BinaryOperator → Expr → Expr → Option ExprNode
  unfolding binary_int binary_float get_int_value get_float_value
  evaluate_binary n op l r =
      if same_type (data_type_of l) DataType.int_type
        && same_type (data_type_of r) DataType.int_type
      then folded_int n (binary_int op (get_int_value l) (get_int_value r))
      else some
          (folded n DataType.float_type (binary_float op (get_float_value l) (get_float_value r)))

  unfoldable pub evaluate_unary : ExprNode → UnaryOperator → Expr → ExprNode
  unfolding unary_int unary_float get_int_value get_float_value
  evaluate_unary n op e =
      if same_type (data_type_of e) DataType.int_type
      then folded n DataType.int_type (unary_int op (get_int_value e))
      else folded n DataType.float_type (unary_float op (get_float_value e))

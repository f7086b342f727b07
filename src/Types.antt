-- ===== src/Types.antt =====
-- The types of src/header.h and src/symbolTable.h: data types of nodes, type descriptors, function
-- signatures and symbol attributes.
pub mod Descriptor
use ntu_csie_complier.Prelude.{ℕ, ◌||◌, Bool, String, List, ◌==◌}

pub data DataType : Type 0 where
  int_type float_type void_type int_ptr_type float_ptr_type const_string_type none_type error_type :
      DataType

-- The value of the enumerator.
abbrev pub type_index : DataType → ℕ
type_index DataType.int_type = 0
type_index DataType.float_type = 1
type_index DataType.void_type = 2
type_index DataType.int_ptr_type = 3
type_index DataType.float_ptr_type = 4
type_index DataType.const_string_type = 5
type_index DataType.none_type = 6
type_index DataType.error_type = 7

abbrev pub same_type : DataType → DataType → Bool
same_type a b = type_index a == type_index b

abbrev pub is_ptr : DataType → Bool
is_ptr d = same_type d DataType.int_ptr_type || same_type d DataType.float_ptr_type

pub data BinaryOperator : Type 0 where
  op_add op_sub op_mul op_div op_eq op_ge op_le op_ne op_gt op_lt op_and op_or : BinaryOperator

pub data UnaryOperator : Type 0 where
  op_positive op_negative op_logical_negation : UnaryOperator

-- `int intval` and `double fval` are bit patterns.
pub data ConType : Type 0 where
  integerc : ℕ → ConType
  floatc : ℕ → ConType
  stringc : String → ConType

abbrev pub max_array_dimension : ℕ
max_array_dimension = 10

-- `sizes` are the first `dimension` elements of `sizeInEachDimension`.
pub record ArrayProperties : Type 0 where
  pub dimension : ℕ
  pub sizes : List ℕ
  pub element_type : DataType

pub data TypeDescriptor : Type 0 where
  scalar : DataType → TypeDescriptor
  array : ArrayProperties → TypeDescriptor

pub record Parameter : Type 0 where
  pub type : TypeDescriptor
  pub parameter_name : String

pub record FunctionSignature : Type 0 where
  pub parameters_count : ℕ
  pub parameter_list : List Parameter
  pub return_type : DataType

-- A signature is filled in after its symbol is entered, so that an attribute points to it: the
-- number is its place in the list of all signatures.
pub data SymbolAttribute : Type 0 where
  variable_attribute : TypeDescriptor → SymbolAttribute
  type_attribute : TypeDescriptor → SymbolAttribute
  function_signature : ℕ → SymbolAttribute

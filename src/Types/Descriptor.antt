-- ===== src/Types/Descriptor.antt =====
-- The methods of `TypeDescriptor`, `ArrayProperties` and `FunctionSignature` in src/symbolTable.c and
-- src/symbolTable.h. An `assert` that fails is `none`.
pub mod Laws
use ntu_csie_complier.Prelude.{
  ℕ, zero, suc, ◌+◌, ◌-◌, ◌*◌, ◌%◌, Bool, true, false, ◌&&◌, ◌||◌, Option, none, some, List, [],
  ◌∷◌, ◌++◌, ◌==◌, ltb, take, get_elem?, length, if◌then◌else◌,
}
use ntu_csie_complier.Semantic.Fold.{int_mod, div32}
use ntu_csie_complier.Types.{
  DataType, same_type, int_type, float_type, ArrayProperties, TypeDescriptor, scalar, array,
  Parameter, FunctionSignature, max_array_dimension,
}

-- `TypeDescriptor::TypeDescriptor(ARRAY_TYPE_DESCRIPTOR, type)`, with `init`.
abbrev pub new_array : DataType → TypeDescriptor
new_array d = array (record { dimension = 0; sizes = []; element_type = d })

abbrev pub get_data_type : TypeDescriptor → DataType
get_data_type (scalar d) = d
get_data_type (array p) = p.element_type

-- `addDimension`; the array of sizes has room for `max_array_dimension`.
unfoldable pub add_dimension : ℕ → TypeDescriptor → Option TypeDescriptor
add_dimension n (scalar d) = none
add_dimension n (array p) =
    if ltb p.dimension max_array_dimension
    then some (array (record p { dimension = suc p.dimension; sizes = p.sizes ++ n ∷ [] }))
    else none

unfoldable pub get_dimension : TypeDescriptor → Option ℕ
get_dimension (scalar d) = none
get_dimension (array p) = some p.dimension

unfoldable pub get_array_dimension_size : ℕ → TypeDescriptor → Option ℕ
get_array_dimension_size i (scalar d) = none
get_array_dimension_size i (array p) = if ltb i p.dimension then get_elem? p.sizes i else none

-- The tests of the element types.
abbrev pub same_or_numeric : DataType → DataType → Bool
same_or_numeric a b =
    same_type a b
    || same_type a int_type && same_type b float_type
    || same_type a float_type && same_type b int_type

abbrev pub same_sizes : List ℕ → List ℕ → Bool
same_sizes [] [] = true
same_sizes (m ∷ ms) (n ∷ ns) = m == n && same_sizes ms ns
same_sizes _ _ = false

abbrev pub tail : List ℕ → List ℕ
tail [] = []
tail (n ∷ ns) = ns

-- `ArrayProperties::isCompatible`
unfoldable pub is_compatible_array : Bool → ArrayProperties → ArrayProperties → Bool
is_compatible_array ignore_first_dim_size p q =
    same_or_numeric p.element_type q.element_type
    && p.dimension == q.dimension
    && (if ignore_first_dim_size
        then same_sizes (tail p.sizes) (tail q.sizes)
        else same_sizes p.sizes q.sizes)

-- `TypeDescriptor::isCompatible`
unfoldable pub is_compatible : TypeDescriptor → TypeDescriptor → Bool
unfolding is_compatible_array
is_compatible (scalar a) (scalar b) = same_or_numeric a b
is_compatible (array p) (array q) = is_compatible_array true p q
is_compatible _ _ = false

-- The loops of `size` and `getSubArrayProperty`: over the sizes, and from an index on for `n` sizes.
unfoldable pub product : ℕ → List ℕ → ℕ
product size [] = size
product size (n ∷ sizes) = product (size * n % int_mod) sizes

-- `(size*4+3)/4*4` on words.
unfoldable pub round_up : ℕ → ℕ
unfolding div32
round_up size = elim (div32 ((size * 4 + 3) % int_mod) 4) [ none ↦ 0 | some q ↦ q * 4 % int_mod ]

unfoldable pub size : TypeDescriptor → ℕ
unfolding product round_up
size (scalar d) = 4
size (array p) = round_up (product 1 p.sizes)

unfoldable pub add_dimensions : TypeDescriptor → ℕ → ℕ → TypeDescriptor → Option TypeDescriptor
unfolding add_dimension get_array_dimension_size
add_dimensions t i zero temp = some temp
add_dimensions t i (suc n) temp = elim (get_array_dimension_size i t) [
  | none ↦ none
  | some k ↦ elim (add_dimension k temp) [
    | none ↦ none
    | some temp' ↦ add_dimensions t (suc i) n temp'
  ]
]

unfoldable pub get_sub_array_property : ℕ → TypeDescriptor → Option TypeDescriptor
unfolding add_dimensions
get_sub_array_property dimension (scalar d) = none
get_sub_array_property dimension (array p) =
    if p.dimension == dimension
    then some (scalar p.element_type)
    else add_dimensions (array p) dimension (p.dimension - dimension) (new_array p.element_type)

-- `addParameter`
unfoldable pub add_parameter : Parameter → FunctionSignature → FunctionSignature
add_parameter p f = record f {
  parameters_count = suc f.parameters_count;
  parameter_list = f.parameter_list ++ p ∷ [];
}

-- ===== src/Backend/Elements.antt =====
-- `ARSystem::getAddress` of src/Register.cpp, given the code of the subscripts.
use ntu_csie_complier.Prelude.{
  ℕ, zero, suc, Bool, true, false, not, ◌&&◌, ◌||◌, Option, none, some, String, ◌==◌, ltb,
  if◌then◌else◌,
}
use ntu_csie_complier.Effect.{pure, ◌>>=◌, ◌>>◌}
use ntu_csie_complier.Types.{TypeDescriptor, int_type, op_add, op_mul, ConType, stringc}
use ntu_csie_complier.Types.Descriptor.{get_array_dimension_size}
use ntu_csie_complier.Semantic.Fold.{int_min}
use ntu_csie_complier.Backend.Code.{
  Address, LoadType, load_addr, load_word, reg_address, label_address, named, has_reg,
}
use ntu_csie_complier.Backend.State.{Host}
use ntu_csie_complier.Backend.Registers.{get_reg}
use ntu_csie_complier.Backend.Operations.{load_reg, operand, operand_int}
use ntu_csie_complier.Backend.Loads.{load_address}
use ntu_csie_complier.Backend.Frame.{Variable, find_string}
use ntu_csie_complier.Backend.Nodes.{Coder, Code, on_gen, set_lock}

abbrev pub of_option : {A : Type 0} → Option A → Code A
of_option none s = none
of_option (some a) s = some (a, s)

-- The address that `addVariable` gave to a variable.
unfoldable pub declared_address : Variable → Code Address
declared_address v s =
    of_option
      (if v.nesting_level == 0 then s.ar.global_variable v.entry else s.ar.local_variable v.entry) s

-- The address of a constant: that of a string, if it is declared, or "NULL".
abbrev pub null_address : Address
null_address = label_address (named "NULL")

abbrev pub string_address : Coder → String → Address
string_address s str = elim (find_string str s.ar.str_const) [
  | none ↦ null_address
  | some l ↦ record (label_address l) { load_type = load_addr }
]

unfoldable pub constant_address : ConType → Code Address
constant_address (stringc str) s = some (string_address s str, s)
constant_address _ s = some (null_address, s)

-- The `loadType` of the base of an array: a parameter is a pointer, at a positive offset.
abbrev pub base_load_type : Address → LoadType
base_load_type a =
    if has_reg a && (not (a.offset == 0) && ltb a.offset int_min) then load_word else load_addr

-- The address of an element, or of an array if there are too few subscripts.
abbrev pub element_address : ℕ → Bool → Address
element_address r is_element = record (reg_address r) {
  is_volatile = true;
  load_type = if is_element then load_word else load_addr;
}

unfoldable pub set_arr_variable : ℕ → Address → Code (Unit {0})
set_arr_variable node a s =
    some (tt, record s { arr_variable = λ k. if k == node then some a else s.arr_variable k })

abbrev pub cached : Code Address → Option Address → Code Address
cached m (some a) = pure a
cached m none = m

module _ (host : Host) where
  -- One round of the loop over the dimensions: with a subscript, given its code and its register, and
  -- without.
  abbrev pub first_offset : ℕ → ℕ → Code (Unit {0})
  first_offset offset tmp = on_gen (load_reg host offset tmp)

  unfoldable pub next_offset : TypeDescriptor → ℕ → ℕ → Code ℕ → Code (Unit {0})
  unfolding operand operand_int get_array_dimension_size
  next_offset t i offset temp = do
    size ← of_option (get_array_dimension_size i t)
    on_gen (operand_int host offset op_mul offset size)
    tmp ← temp
    on_gen (operand host offset op_add offset tmp)

  unfoldable pub subscript_offset :
      TypeDescriptor → ℕ → ℕ → Code (Unit {0}) → Code ℕ → Code (Unit {0})
  unfolding next_offset load_reg
  subscript_offset t i offset code temp = do
    code
    locked ← temp
    set_lock locked true
    if i == 0 then temp >>= first_offset offset else next_offset t i offset temp
    unlocked ← temp
    set_lock unlocked false

  unfoldable pub no_subscript_offset : TypeDescriptor → ℕ → ℕ → ℕ → Code (Unit {0})
  unfolding operand_int get_array_dimension_size
  no_subscript_offset t i zero offset = pure tt
  no_subscript_offset t i (suc n) offset = do
    size ← of_option (get_array_dimension_size i t)
    on_gen (operand_int host offset op_mul offset size)
    no_subscript_offset t (suc i) n offset

  -- The address of an element of an array with this base, given the code of the offset, which says
  -- whether there is a subscript for each dimension.
  unfoldable pub array_element : ℕ → Address → (ℕ → Code Bool) → Code Address
  unfolding get_reg operand_int load_address operand set_arr_variable
  array_element node base offset_code = do
    offset ← on_gen (get_reg host int_type false)
    set_lock offset true
    is_element ← offset_code offset
    on_gen (operand_int host offset op_mul offset 4)
    final ← on_gen (get_reg host int_type true)
    on_gen (load_address host final (record base { load_type = base_load_type base }))
    on_gen (operand host final op_add final offset)
    set_lock offset false
    set_arr_variable node (element_address final is_element)
    pure (element_address final is_element)

  abbrev pub cached_element : ℕ → Address → (ℕ → Code Bool) → Code Address
  cached_element node a offset_code s =
      cached (array_element node a offset_code) (s.arr_variable node) s

  -- `getAddress` of an identifier.
  unfoldable pub identifier_address : ℕ → Variable → Bool → Bool → (ℕ → Code Bool) → Code Address
  unfolding declared_address array_element
  identifier_address node v is_declared is_array_id offset_code = do
    a ← declared_address v
    if is_declared || not is_array_id then pure a else cached_element node a offset_code

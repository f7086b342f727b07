-- ===== src/Backend/Tags/Addresses.antt =====
-- The addresses of elements (`getAddress` of src/Register.cpp).
use ntu_csie_complier.Prelude.{
  ℕ, zero, suc, Bool, true, false, not, ◌||◌, Option, none, some, ◌==◌, if◌then◌else◌, refl,
}
use ntu_csie_complier.Effect.Post.{faults, returns}
use ntu_csie_complier.Types.{
  TypeDescriptor, int_type, op_add, op_mul, ConType, integerc, floatc, stringc,
}
use ntu_csie_complier.Types.Descriptor.{get_array_dimension_size}
use ntu_csie_complier.Backend.Code.{Label, Address}
use ntu_csie_complier.Backend.State.{Host}
use ntu_csie_complier.Backend.Operations.{load_reg, operand_int}
use ntu_csie_complier.Backend.Frame.{Variable}
use ntu_csie_complier.Backend.Quiet.Operations.{load_reg-Silent, operand-Silent, operand_int-Silent}
use ntu_csie_complier.Backend.Nodes.{Code, on_gen}
use ntu_csie_complier.Backend.Elements.{
  of_option, declared_address, constant_address, element_address, set_arr_variable, cached,
  next_offset, subscript_offset, no_subscript_offset, array_element, identifier_address,
  base_load_type,
}
use ntu_csie_complier.Backend.Tags.{Balanced, ◌▸◌, on_gen-Balanced, unchanged-Step}
use ntu_csie_complier.Backend.Tags.Nodes.{
  pure-Balanced, set_lock-Balanced, choice-Balanced, get_reg-Balanced, load_address-Balanced,
}

module _ (l : Label) (i : ℕ) where
  pub of_option-Balanced : {A : Type 0} (o : Option A) → Balanced l i 0 0 (of_option o)
  of_option-Balanced none s = faults
  of_option-Balanced (some a) s = returns (unchanged-Step l i s s refl refl refl refl)

  pub declared_address-Balanced : (v : Variable) → Balanced l i 0 0 (declared_address v)
  unfolding declared_address
  declared_address-Balanced v s =
      of_option-Balanced
        (if v.nesting_level == 0 then s.ar.global_variable v.entry else s.ar.local_variable v.entry)
        s

  pub constant_address-Balanced : (c : ConType) → Balanced l i 0 0 (constant_address c)
  unfolding constant_address
  constant_address-Balanced (integerc value) s =
      returns (unchanged-Step l i s s refl refl refl refl)
  constant_address-Balanced (floatc value) s = returns (unchanged-Step l i s s refl refl refl refl)
  constant_address-Balanced (stringc str) s = returns (unchanged-Step l i s s refl refl refl refl)

  set_arr_variable-Balanced : (node : ℕ) (a : Address) → Balanced l i 0 0 (set_arr_variable node a)
  unfolding set_arr_variable
  set_arr_variable-Balanced node a s = returns (unchanged-Step l i s _ refl refl refl refl)

  module _ (host : Host) where
    pub load_reg-Balanced : (r from : ℕ) → Balanced l i 0 0 (on_gen (load_reg host r from))
    load_reg-Balanced r from = on_gen-Balanced l i _ (load_reg-Silent l host r from)

    multiply-Balanced : (r n : ℕ) → Balanced l i 0 0 (on_gen (operand_int host r op_mul r n))
    multiply-Balanced r n = on_gen-Balanced l i _ (operand_int-Silent l host r op_mul r n)

    next_offset-Balanced :
        (t : TypeDescriptor) (k offset : ℕ) (temp : Code ℕ)
        → Balanced l i 0 0 temp
        → Balanced l i 0 0 (next_offset host t k offset temp)
    unfolding next_offset
    next_offset-Balanced t k offset temp h =
        of_option-Balanced (get_array_dimension_size k t) ▸ λ size.
        multiply-Balanced offset size ▸ λ _.
        h ▸ λ tmp. on_gen-Balanced l i _ (operand-Silent l host offset op_add offset tmp)

    pub subscript_offset-Balanced :
        (t : TypeDescriptor) (k offset : ℕ) (code : Code (Unit {0})) (temp : Code ℕ)
        → Balanced l i 0 0 code
        → Balanced l i 0 0 temp
        → Balanced l i 0 0 (subscript_offset host t k offset code temp)
    unfolding subscript_offset
    subscript_offset-Balanced t k offset code temp h h' = h ▸ λ _. h' ▸ λ locked.
        set_lock-Balanced l i locked true ▸ λ _.
        (choice-Balanced l i (k == 0) _ _ (h' ▸ λ tmp. load_reg-Balanced offset tmp)
          (next_offset-Balanced t k offset temp h'))
        ▸ λ _. h' ▸ λ unlocked. set_lock-Balanced l i unlocked false

    pub no_subscript_offset-Balanced :
        (t : TypeDescriptor) (k n offset : ℕ)
        → Balanced l i 0 0 (no_subscript_offset host t k n offset)
    unfolding no_subscript_offset
    no_subscript_offset-Balanced t k zero offset = pure-Balanced l i tt
    no_subscript_offset-Balanced t k (suc n) offset =
        of_option-Balanced (get_array_dimension_size k t) ▸ λ size.
        multiply-Balanced offset size ▸ λ _. no_subscript_offset-Balanced t (suc k) n offset

    module _ (node : ℕ) (offset_code : ℕ → Code Bool)
        (h : (offset : ℕ) → Balanced l i 0 0 (offset_code offset)) where
      array_element-Balanced :
          (base : Address) → Balanced l i 0 0 (array_element host node base offset_code)
      unfolding array_element
      array_element-Balanced base = get_reg-Balanced l i host int_type false ▸ λ offset.
          set_lock-Balanced l i offset true ▸ λ _. h offset ▸ λ is_element.
          multiply-Balanced offset 4 ▸ λ _. get_reg-Balanced l i host int_type true ▸ λ final.
          load_address-Balanced l i host final (record base { load_type = base_load_type base })
          ▸ λ _. on_gen-Balanced l i _ (operand-Silent l host final op_add final offset) ▸ λ _.
              set_lock-Balanced l i offset false ▸ λ _.
              set_arr_variable-Balanced node (element_address final is_element) ▸ λ _.
              pure-Balanced l i (element_address final is_element)

      cached-Balanced :
          (base : Address) (o : Option Address)
          → Balanced l i 0 0 (cached (array_element host node base offset_code) o)
      cached-Balanced base none = array_element-Balanced base
      cached-Balanced base (some a) = pure-Balanced l i a

      pub identifier_address-Balanced :
          (v : Variable) (is_declared is_array_id : Bool)
          → Balanced l i 0 0 (identifier_address host node v is_declared is_array_id offset_code)
      unfolding identifier_address
      identifier_address-Balanced v is_declared is_array_id = declared_address-Balanced v ▸ λ a.
          choice-Balanced l i (is_declared || not is_array_id) _ _ (pure-Balanced l i a)
            (λ s. cached-Balanced a (s.arr_variable node) s)

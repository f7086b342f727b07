-- ===== src/Semantic/Initial.antt =====
-- `initializeSymbolTable` of src/symbolTable.c, and the state that `main` of src/parser.y starts semantic
-- analysis in.
use ntu_csie_complier.Prelude.{◌≡◌, refl, ap, ◌∙◌, String, List, [], ◌∷◌, replicate, false, arith}
use ntu_csie_complier.SymbolTable.Defs.{SymbolTable, enter_symbol, find}
use ntu_csie_complier.SymbolTable.Scopes.{IsValid, visible}
use ntu_csie_complier.SymbolTable.Spec.{view, declare, ScopedMap}
use ntu_csie_complier.SymbolTable.Refines.{enter_symbol-declare}
use ntu_csie_complier.SymbolTable.Blocks.{enter_symbol-level}
use ntu_csie_complier.Types.{
  int_type, float_type, void_type, scalar, FunctionSignature, SymbolAttribute, type_attribute,
  function_signature,
}
use ntu_csie_complier.Semantic.State.{State}

unfoldable pub empty_table : {A : Type 0} → SymbolTable A
empty_table = record {
  hash_table = λ k. [];
  scope_display = replicate 10 [];
  current_level = 0;
  scope_display_element_count = 10;
}

-- The predeclared names. The functions' signatures are the first two of `predeclared_signatures`.
abbrev pub predeclared : List (String × SymbolAttribute)
predeclared =
    ("int", type_attribute (scalar int_type))
    ∷ ("float", type_attribute (scalar float_type))
    ∷ ("void", type_attribute (scalar void_type))
    ∷ ("read", function_signature 0)
    ∷ ("fread", function_signature 1)
    ∷ []

abbrev pub predeclared_signatures : List FunctionSignature
predeclared_signatures =
    record { parameters_count = 0; parameter_list = []; return_type = int_type }
    ∷ record { parameters_count = 0; parameter_list = []; return_type = float_type }
    ∷ []

abbrev pub enter_all : {A : Type 0} → List (String × A) → SymbolTable A → SymbolTable A
enter_all [] t = t
enter_all ((name, a) ∷ rest) t = enter_all rest (enter_symbol name a t).1

unfoldable pub initialize_symbol_table : SymbolTable SymbolAttribute
unfolding empty_table enter_symbol
initialize_symbol_table = enter_all predeclared empty_table

abbrev pub declare_all : {A : Type 0} → List (String × A) → ScopedMap A → ScopedMap A
declare_all [] m = m
declare_all ((name, a) ∷ rest) m = declare_all rest (declare name a m)

abbrev pub initial_state : State
initial_state = record {
  table = initialize_symbol_table;
  signatures = predeclared_signatures;
  messages = [];
  any_error_occur = false;
}

empty_table-IsValid : {A : Type 0} → IsValid (empty_table {A = A})
unfolding empty_table find visible
empty_table-IsValid = record {
  within = ground arith;
  counted = refl;
  scoped = (tt, tt);
  indexed = record { chains = λ k. tt; finds = λ name. refl };
}

enter_all-IsValid :
    {A : Type 0} (l : List (String × A)) (t : SymbolTable A)
    → IsValid t
    → IsValid (enter_all l t)
      × (view (enter_all l t) ≡ declare_all l (view t))
      × ((enter_all l t).current_level ≡ t.current_level)
enter_all-IsValid [] t v = (v, refl, refl)
enter_all-IsValid ((name, a) ∷ rest) t v =
    let (v', is, _) = enter_symbol-declare name a t v in
    let (v'', is', level) = enter_all-IsValid rest (enter_symbol name a t).1 v' in
    (v'', is' ∙ ap (declare_all rest) is, level ∙ enter_symbol-level name a t)

-- The initial table is valid, and its one scope, at level 0, declares the predeclared names and no others.
pub initialize_symbol_table-IsValid :
    IsValid initialize_symbol_table
    × (view initialize_symbol_table
        ≡ (("fread", function_signature 1)
            ∷ ("read", function_signature 0)
            ∷ ("void", type_attribute (scalar void_type))
            ∷ ("float", type_attribute (scalar float_type))
            ∷ ("int", type_attribute (scalar int_type))
            ∷ [])
          ∷ [])
    × (initialize_symbol_table.current_level ≡ 0)
unfolding empty_table initialize_symbol_table
initialize_symbol_table-IsValid = enter_all-IsValid predeclared empty_table empty_table-IsValid

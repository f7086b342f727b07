-- ===== src/Examples/Tables.antt =====
-- The operations of src/symbolTable.c on the initial table and a block in it.
use ntu_csie_complier.Prelude.{◌<◌, ◌%◌, ◌∙◌, ap, ◌≡◌, not, some, [], ◌∷◌, suc}
use ntu_csie_complier.SymbolTable.Defs.{
  SymbolTable, enter_symbol, remove_symbol, open_scope, close_scope, retrieve_symbol,
}
use ntu_csie_complier.SymbolTable.Hash.{hash, polynomial, codes}
use ntu_csie_complier.SymbolTable.Hash
use ntu_csie_complier.SymbolTable.Scopes.{IsValid}
use ntu_csie_complier.SymbolTable.Spec.{
  view, declare, undeclare, outer, lookup, declares, attribute_of, is_some,
}
use ntu_csie_complier.SymbolTable.Refines
use ntu_csie_complier.SymbolTable.Blocks
use ntu_csie_complier.SymbolTable.Blocks.{Balanced, done, entered, Kept}
use ntu_csie_complier.Types.{SymbolAttribute, scalar, float_type, variable_attribute}
use ntu_csie_complier.Semantic.Initial.{initialize_symbol_table, initialize_symbol_table-IsValid}

abbrev int_shadow : SymbolAttribute
int_shadow = variable_attribute (scalar float_type)

-- A block that declares `int` as a variable.
abbrev inner_table : SymbolTable SymbolAttribute
inner_table = (enter_symbol "int" int_shadow (open_scope initialize_symbol_table)).1

opened : Balanced (open_scope initialize_symbol_table) inner_table
opened = entered "int" int_shadow done

opened-IsValid :
    IsValid (open_scope initialize_symbol_table)
    × (view (open_scope initialize_symbol_table) ≡ [] ∷ view initialize_symbol_table)
    × ((open_scope initialize_symbol_table).current_level
        ≡ suc initialize_symbol_table.current_level)
opened-IsValid = Refines.open_scope-view initialize_symbol_table initialize_symbol_table-IsValid.0

inner-IsValid : Kept (open_scope initialize_symbol_table) inner_table
inner-IsValid = Blocks.Balanced-Kept opened opened-IsValid.0

hash-polynomial_example : (hash "main" < 256) × (hash "main" ≡ polynomial 0 (codes "main") % 256)
hash-polynomial_example = Hash.hash-polynomial "main"

retrieve_symbol-lookup_example :
    attribute_of (retrieve_symbol "int" inner_table) ≡ lookup "int" (view inner_table)
retrieve_symbol-lookup_example =
    Refines.retrieve_symbol-lookup "int" inner_table inner-IsValid.valid

enter_symbol-declare_example :
    IsValid (enter_symbol "float" int_shadow inner_table).1
    × (view (enter_symbol "float" int_shadow inner_table).1
        ≡ declare "float" int_shadow (view inner_table))
    × (is_some (attribute_of (enter_symbol "float" int_shadow inner_table).0)
        ≡ not (declares "float" (view inner_table)))
enter_symbol-declare_example =
    Refines.enter_symbol-declare "float" int_shadow inner_table inner-IsValid.valid

remove_symbol-undeclare_example :
    IsValid (remove_symbol "int" inner_table)
    × (view (remove_symbol "int" inner_table) ≡ undeclare "int" (view inner_table))
remove_symbol-undeclare_example =
    Refines.remove_symbol-undeclare "int" inner_table inner-IsValid.valid

open_scope-view_example :
    IsValid (open_scope inner_table)
    × (view (open_scope inner_table) ≡ [] ∷ view inner_table)
    × ((open_scope inner_table).current_level ≡ suc inner_table.current_level)
open_scope-view_example = Refines.open_scope-view inner_table inner-IsValid.valid

close_scope-view_example :
    (t' : SymbolTable SymbolAttribute) × (close_scope inner_table ≡ some t')
    × IsValid t'
    × (view t' ≡ outer (view inner_table))
    × (t'.current_level ≡ 0)
close_scope-view_example =
    Refines.close_scope-view 0 inner_table inner-IsValid.valid
      (inner-IsValid.same_level ∙ opened-IsValid.2 ∙ ap suc initialize_symbol_table-IsValid.2)

closed_block : (t2 : SymbolTable SymbolAttribute) × (close_scope inner_table ≡ some t2)
closed_block =
    Blocks.close_scope_balanced initialize_symbol_table initialize_symbol_table-IsValid.0 opened

block-retrieve_example :
    attribute_of (retrieve_symbol "int" closed_block.0)
    ≡ attribute_of (retrieve_symbol "int" initialize_symbol_table)
block-retrieve_example =
    Blocks.block-retrieve initialize_symbol_table "int" initialize_symbol_table-IsValid.0 opened
      closed_block.1

Balanced-Kept_example : Kept (open_scope initialize_symbol_table) inner_table
Balanced-Kept_example = Blocks.Balanced-Kept opened opened-IsValid.0

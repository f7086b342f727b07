-- ===== src/SymbolTable/Spec.antt =====
-- What src/symbolTable.c implements: a stack of finite maps, innermost scope first.
use ntu_csie_complier.Prelude.{
  ◌≡◌, refl, Bool, true, false, String, Option, none, some, List, [], ◌∷◌, arith, str_eq,
  if◌then◌else◌,
}
use ntu_csie_complier.SymbolTable.Defs.{SymbolTableEntry, SymbolTable, entry_name, find, unlink}
use ntu_csie_complier.SymbolTable.Scopes.{visible, scopes, as_entry}

abbrev pub ScopedMap : Type 0 → Type 0
ScopedMap A = List (List (String × A))

module _ {A : Type 0} where
  abbrev pub lookup_scope : String → List (String × A) → Option A
  lookup_scope name [] = none
  lookup_scope name ((key, a) ∷ scope) = if str_eq key name then some a else lookup_scope name scope

  abbrev pub or_else : Option A → Option A → Option A
  or_else (some a) o = some a
  or_else none o = o

  -- The innermost declaration.
  abbrev pub lookup : String → ScopedMap A → Option A
  lookup name [] = none
  lookup name (scope ∷ outer) = or_else (lookup_scope name scope) (lookup name outer)

  abbrev pub is_some : Option A → Bool
  is_some none = false
  is_some (some a) = true

  abbrev pub declares : String → ScopedMap A → Bool
  declares name [] = false
  declares name (scope ∷ outer) = is_some (lookup_scope name scope)

  abbrev pub declare : String → A → ScopedMap A → ScopedMap A
  declare name a [] = []
  declare name a (scope ∷ outer) =
      if is_some (lookup_scope name scope) then scope ∷ outer else ((name, a) ∷ scope) ∷ outer

  abbrev pub erase_scope : String → List (String × A) → List (String × A)
  erase_scope name [] = []
  erase_scope name ((key, a) ∷ scope) =
      if str_eq key name then scope else (key, a) ∷ erase_scope name scope

  abbrev pub undeclare : String → ScopedMap A → ScopedMap A
  undeclare name [] = []
  undeclare name (scope ∷ outer) = erase_scope name scope ∷ outer

  -- The scopes around the innermost one.
  abbrev pub outer : ScopedMap A → ScopedMap A
  outer [] = []
  outer (scope ∷ rest) = rest

  abbrev pub view_scope : List (SymbolTableEntry A) → List (String × A)
  view_scope [] = []
  view_scope (e ∷ scope) = (entry_name e, e.binding.attribute) ∷ view_scope scope

  abbrev pub view_stack : List (List (SymbolTableEntry A)) → ScopedMap A
  view_stack [] = []
  view_stack (scope ∷ outer) = view_scope scope ∷ view_stack outer

  abbrev pub view : SymbolTable A → ScopedMap A
  view t = view_stack (scopes t)

  abbrev pub attribute_of : Option (SymbolTableEntry A) → Option A
  attribute_of none = none
  attribute_of (some e) = some e.binding.attribute

  pub lookup_scope-view :
      (name : String) (scope : List (SymbolTableEntry A))
      → lookup_scope name (view_scope scope) ≡ attribute_of (find name scope)
  unfolding find
  lookup_scope-view name [] = refl
  lookup_scope-view name (e ∷ scope) = ground (arith, lookup_scope-view name scope)

  pub lookup-view :
      (name : String) (stack : List (List (SymbolTableEntry A)))
      → lookup name (view_stack stack) ≡ attribute_of (as_entry (visible name stack))
  unfolding visible
  lookup-view name [] = refl
  lookup-view name (scope ∷ stack) =
      ground (arith, lookup_scope-view name scope, lookup-view name stack)

  pub erase_scope-view :
      (name : String) (scope : List (SymbolTableEntry A))
      → erase_scope name (view_scope scope) ≡ view_scope (unlink name scope)
  unfolding unlink
  erase_scope-view name [] = refl
  erase_scope-view name (e ∷ scope) = ground (arith, erase_scope-view name scope)

  pub erase_scope_absent :
      (name : String) (scope : List (String × A))
      → lookup_scope name scope ≡ none
      → erase_scope name scope ≡ scope
  erase_scope_absent name [] h = refl
  erase_scope_absent name ((key, a) ∷ scope) h = ground (arith, erase_scope_absent name scope)

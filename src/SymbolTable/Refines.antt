-- ===== src/SymbolTable/Refines.antt =====
-- The operations of src/symbolTable.c refine those of a stack of finite maps.
use ntu_csie_complier.Prelude.{
  ℕ, suc, ◌≡◌, refl, sym, ap, ◌∙◌, inl, inr, not, String, none, some, [], ◌∷◌, Option-cases, ==_iff,
}
use ntu_csie_complier.SymbolTable.Defs.{
  SymbolTable, find, retrieve_symbol, declared_locally, enter_symbol, remove_symbol, open_scope,
  close_scope,
}
use ntu_csie_complier.SymbolTable.Scopes.{IsValid, scopes}
use ntu_csie_complier.SymbolTable.Display.{levels-below}
use ntu_csie_complier.SymbolTable.Top.{top, outer_scopes, finds-lower}
use ntu_csie_complier.SymbolTable.Enter.{enter_symbol-new, enter_symbol-old, find-top-old}
use ntu_csie_complier.SymbolTable.Leave.{remove_symbol-top, remove_symbol-other}
use ntu_csie_complier.SymbolTable.Close.{close_scope-lem, open_scope-lem}
use ntu_csie_complier.SymbolTable.Spec.{
  outer, lookup, declares, declare, undeclare, view, view_stack, view_scope, attribute_of, is_some,
  lookup_scope-view, lookup-view, erase_scope-view, erase_scope_absent, lookup_scope,
}

module _ {A : Type 0} where
  view-top : (t : SymbolTable A) → view t ≡ view_scope (top t) ∷ view_stack (outer_scopes t)
  view-top t = ap view_stack (levels-below t.scope_display t.current_level)

  -- On a valid table `retrieveSymbol` finds the attribute of the innermost declaration of a name,
  -- and nothing if there is none.
  pub retrieve_symbol-lookup :
      (name : String) (t : SymbolTable A)
      → IsValid t
      → attribute_of (retrieve_symbol name t) ≡ lookup name (view t)
  unfolding retrieve_symbol
  retrieve_symbol-lookup name t v =
      ap attribute_of (v.indexed.finds name) ∙ sym (lookup-view name (scopes t))

  -- On a valid table `declaredLocally` holds of exactly the names that the innermost scope
  -- declares.
  pub declared_locally-declares :
      (name : String) (t : SymbolTable A)
      → IsValid t
      → declared_locally name t ≡ declares name (view t)
  unfolding declared_locally
  declared_locally-declares name t v = elim (Option-cases (find name (top t))) [
    | inr (e, old) ↦
        let (found, level, _) = find-top-old name t e v old in
        rw (
          view-top t,
          found,
          (==_iff e.binding.nesting_level t.current_level).1 level,
          lookup_scope-view name (top t),
          old,
        )
    | inl new ↦ elim (finds-lower name t v new) [
      | inl free ↦ rw (view-top t, lookup_scope-view name (top t), new, free)
      | inr (e, found, lower) ↦ rw (view-top t, lookup_scope-view name (top t), new, found, lower)
    ]
  ]

  -- On a valid table `enterSymbol` declares the name in the innermost scope, leaves a valid table,
  -- and returns an entry exactly if the scope did not declare the name already.
  pub enter_symbol-declare :
      (name : String) (attribute : A) (t : SymbolTable A)
      → IsValid t
      → IsValid (enter_symbol name attribute t).1
        × (view (enter_symbol name attribute t).1 ≡ declare name attribute (view t))
        × (is_some (attribute_of (enter_symbol name attribute t).0) ≡ not (declares name (view t)))
  enter_symbol-declare name attribute t v = elim (Option-cases (find name (top t))) [
    | inr (e, old) ↦
        rw
          (
            enter_symbol-old name attribute t e v old,
            view-top t,
            lookup_scope-view name (top t),
            old,
          )
          (v, refl, refl)
    | inl new ↦
        let (v', is, sc) = enter_symbol-new name attribute t v new in
        (
          v',
          rw (view-top t, lookup_scope-view name (top t), new) (ap view_stack sc),
          rw (view-top t, lookup_scope-view name (top t), new, is),
        )
  ]

  -- On a valid table `removeSymbol` takes the innermost scope's declaration of the name away, and
  -- nothing else, and leaves a valid table.
  pub remove_symbol-undeclare :
      (name : String) (t : SymbolTable A)
      → IsValid t
      → IsValid (remove_symbol name t) × (view (remove_symbol name t) ≡ undeclare name (view t))
  remove_symbol-undeclare name t v = elim (Option-cases (find name (top t))) [
    | inr (e, old) ↦
        let (v', sc) = remove_symbol-top name t e v old in
        (v', rw (view-top t, erase_scope-view name (top t)) (ap view_stack sc))
    | inl new ↦
        let absent : lookup_scope name (view_scope (top t)) ≡ none =
          rw (lookup_scope-view name (top t), new) in
        rw (remove_symbol-other name t v new)
          (v, rw (view-top t, erase_scope_absent name (view_scope (top t)) absent))
  ]

  -- On a valid table `openScope` puts an empty scope in front, one level up, and leaves a valid
  -- table, also where the scope display has to grow.
  pub open_scope-view :
      (t : SymbolTable A)
      → IsValid t
      → IsValid (open_scope t)
        × (view (open_scope t) ≡ [] ∷ view t)
        × ((open_scope t).current_level ≡ suc t.current_level)
  open_scope-view t v = let (v', sc, level) = open_scope-lem t v in (v', ap view_stack sc, level)

  -- On a valid table above level 0 `closeScope` has a result: a valid table, one level down, with
  -- the innermost scope taken away and the others as they were.
  pub close_scope-view :
      (level : ℕ) (t : SymbolTable A)
      → IsValid t
      → t.current_level ≡ suc level
      → (t' : SymbolTable A) × (close_scope t ≡ some t')
        × IsValid t'
        × (view t' ≡ outer (view t))
        × (t'.current_level ≡ level)
  close_scope-view level t v inner =
      let (t', closed, v', sc, level') = close_scope-lem level t v inner in
      (t', closed, v', ap view_stack sc ∙ sym (ap outer (view-top t)), level')
